-- ===== src/Config/Defaults.antt =====
-- The defaults of internal/config/config.go.
use golink_url_shortener.Base.{Text, is_empty, ℕ, ◌≡◌, refl, List, [], ◌∷◌, arith}
use golink_url_shortener.Config.{Config, or_text, or_number, or_texts, apply_defaults}

or_text_idem : (s d : Text) → or_text (or_text s d) d ≡ or_text s d
unfolding or_text is_empty
or_text_idem s d = ground arith

or_number_idem : (n d : ℕ) → or_number (or_number n d) d ≡ or_number n d
unfolding or_number
or_number_idem n d = ground arith

or_texts_idem : (ss d : List Text) → or_texts (or_texts ss d) d ≡ or_texts ss d
unfolding or_texts
or_texts_idem [] [] = refl
or_texts_idem [] (d ∷ ds) = refl
or_texts_idem (s ∷ ss) d = refl

-- Defaults are settled: applying them again changes nothing.
pub apply_defaults_idem : (c : Config) → apply_defaults (apply_defaults c) ≡ apply_defaults c
unfolding apply_defaults
apply_defaults_idem c = simp (or_text_idem, or_number_idem, or_texts_idem)
