-- ===== src/Text/Order.antt =====
-- The order of strings.
use android_system_memory_li.Common.{◌≡◌, refl, ap, ◌∙◌, false, ◌||◌, [], ◌∷◌, arith}
use android_system_memory_li.Text.{Bytes, text_lt}

pub text_lt_irrefl : (s : Bytes) → text_lt s s ≡ false
unfolding text_lt
text_lt_irrefl [] = refl
text_lt_irrefl (c ∷ cs) = ground (arith, text_lt_irrefl cs)

-- Two strings of which neither is less are the same.
pub text_lt_connected : (s t : Bytes) → (text_lt s t || text_lt t s) ≡ false → s ≡ t
unfolding text_lt
text_lt_connected [] [] h = refl
text_lt_connected [] (b ∷ bs) h = cc
text_lt_connected (a ∷ as') [] h = cc
text_lt_connected (a ∷ as') (b ∷ bs) h =
    let head : a ≡ b = ground arith in
    let tail : (text_lt as' bs || text_lt bs as') ≡ false = ground arith in
    ap (λ c. c ∷ as') head ∙ ap (λ cs. b ∷ cs) (text_lt_connected as' bs tail)
