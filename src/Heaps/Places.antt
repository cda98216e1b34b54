-- ===== src/Heaps/Places.antt =====
-- Where the classification of androidprocheaps.cpp can put a mapping.
use android_system_memory_li.Common.{
  ℕ, Bool, true, false, ◌&&◌, ◌||◌, ◌≡◌, refl, length, ◌%◌, ◌^◌, ltb, leb, ◌==◌, if◌then◌else◌,
}
use android_system_memory_li.Heaps.Names.{
  Affixes, Place, place, dev_place, dalvik_place, name_place, num_exclusive_heap, num_heap,
  heap_dalvik, heap_dalvik_normal, heap_dalvik_other, heap_dalvik_other_linearalloc, heap_dex,
  heap_dex_boot_vdex, heap_art, heap_art_app, heap_unknown, is_boot, contains,
}
use android_system_memory_li.Text.{Bytes, codes}

abbrev pub within : ℕ → ℕ → ℕ → Bool
within low high n = leb low n && ltb n high

-- A main heap, with a part of it where the heap is split, and with none otherwise.
abbrev pub is_place : Place → Bool
is_place p =
    ltb p.which_heap num_exclusive_heap
    && (if p.which_heap == heap_dalvik
        then within heap_dalvik_normal heap_dalvik_other_linearalloc p.sub_heap
        else if p.which_heap == heap_dalvik_other
        then within heap_dalvik_other_linearalloc heap_dex_boot_vdex p.sub_heap
        else if p.which_heap == heap_dex
        then within heap_dex_boot_vdex heap_art_app p.sub_heap
        else if p.which_heap == heap_art
        then within heap_art_app num_heap p.sub_heap
        else p.sub_heap == heap_unknown)

record Fits (p : Place) : Type 0 where
  fits : is_place p ≡ true

either : {p q : Place} (b : Bool) → Fits p → Fits q → Fits (if b then p else q)
either true h i = h
either false h i = i

module _ (a : Affixes) where
  dev_place-Fits : (name : Bytes) → Fits (dev_place a name)
  unfolding dev_place place
  dev_place-Fits name =
      either (a.starts_with name (codes "/dev/kgsl-3d0")) (record { fits = refl })
        (either (a.starts_with name (codes "/dev/ashmem/CursorWindow")) (record { fits = refl })
          (either (a.starts_with name (codes "/dev/ashmem/jit-zygote-cache"))
            (record { fits = refl })
            (either (a.starts_with name (codes "/dev/ashmem")) (record { fits = refl })
              (record { fits = refl }))))

  dalvik_place-Fits : (name : Bytes) → Fits (dalvik_place a name)
  unfolding dalvik_place place
  dalvik_place-Fits name =
      either (a.starts_with name (codes "[anon:dalvik-LinearAlloc")) (record { fits = refl })
        (either
          (a.starts_with name (codes "[anon:dalvik-alloc space")
            || a.starts_with name (codes "[anon:dalvik-main space"))
          (record { fits = refl })
          (either
            (a.starts_with name (codes "[anon:dalvik-large object space")
              || a.starts_with name (codes "[anon:dalvik-free list large object space"))
            (record { fits = refl })
            (either (a.starts_with name (codes "[anon:dalvik-non moving space"))
              (record { fits = refl })
              (either (a.starts_with name (codes "[anon:dalvik-zygote space"))
                (record { fits = refl })
                (either (a.starts_with name (codes "[anon:dalvik-indirect ref"))
                  (record { fits = refl })
                  (either
                    (a.starts_with name (codes "[anon:dalvik-jit-code-cache")
                      || a.starts_with name (codes "[anon:dalvik-data-code-cache"))
                    (record { fits = refl })
                    (either (a.starts_with name (codes "[anon:dalvik-CompilerMetadata"))
                      (record { fits = refl }) (record { fits = refl }))))))))

  name_place-Fits : (name : Bytes) (is_bss : Bool) → Fits (name_place a name is_bss)
  unfolding name_place place
  name_place-Fits name is_bss =
      either (a.starts_with name (codes "[heap]")) (record { fits = refl })
        (either (a.starts_with name (codes "[anon:libc_malloc]")) (record { fits = refl })
          (either (a.starts_with name (codes "[anon:scudo:")) (record { fits = refl })
            (either (a.starts_with name (codes "[anon:GWP-ASan")) (record { fits = refl })
              (either (a.starts_with name (codes "[stack")) (record { fits = refl })
                (either (a.starts_with name (codes "[anon:stack_and_tls:")) (record { fits = refl })
                  (either (a.ends_with name (codes ".so")) (record { fits = refl })
                    (either (a.ends_with name (codes ".jar")) (record { fits = refl })
                      (either (a.ends_with name (codes ".apk")) (record { fits = refl })
                        (either (a.ends_with name (codes ".ttf")) (record { fits = refl })
                          (either
                            (a.ends_with name (codes ".odex")
                              || (ltb 4 (length name % 2 ^ 32) && contains (codes ".dex") name))
                            (record { fits = refl })
                            (either (a.ends_with name (codes ".vdex"))
                              (either (is_boot name) (record { fits = refl })
                                (record { fits = refl }))
                              (either (a.ends_with name (codes ".oat")) (record { fits = refl })
                                (either
                                  (a.ends_with name (codes ".art")
                                    || a.ends_with name (codes ".art]"))
                                  (either (is_boot name) (record { fits = refl })
                                    (record { fits = refl }))
                                  (either (a.starts_with name (codes "/dev/")) (dev_place-Fits name)
                                    (either (a.starts_with name (codes "/memfd:jit-cache"))
                                      (record { fits = refl })
                                      (either (a.starts_with name (codes "/memfd:jit-zygote-cache"))
                                        (record { fits = refl })
                                        (either (a.starts_with name (codes "[anon:"))
                                          (either (a.starts_with name (codes "[anon:dalvik-"))
                                            (dalvik_place-Fits name) (record { fits = refl }))
                                          (either (ltb 0 (length name % 2 ^ 32))
                                            (record { fits = refl })
                                            (either (is_bss) (record { fits = refl })
                                              (record { fits = refl }))))))))))))))))))))

  -- The classification of a mapping names one of the 20 exclusive heaps, and a part exactly where the
  -- heap is one that is split: a part of that heap.
  pub name_place-is_place :
      (name : Bytes) (is_bss : Bool) → is_place (name_place a name is_bss) ≡ true
  name_place-is_place name is_bss = (name_place-Fits name is_bss).fits
