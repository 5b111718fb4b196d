-- ===== src/ConfigFlow/Letters.antt =====
-- How the small letters and the blanks of a username go together.
use Prim.Native.Char.{Char, code}
use Prim.Native.String.{String}
use danalock_ble_ha_integrat.Prelude.{
  ℕ, Bool, true, ◌≡◌, ◌⊎◌, refl, arith, ap, ◌∙◌, inl, inr, Bool-cases, eqb, leb, ◌||◌, ◌&&◌,
}
use danalock_ble_ha_integrat.ConfigFlow.Username.{is_blank, translate, lower_char, lower}

-- The letters of the two texts at the same place have the same value.
pub Agree : (ℕ → Bool) → String → String → Type 0
Agree g (String.◌∷◌ u us) (String.◌∷◌ v vs) = (g (code v) ≡ g (code u)) × Agree g us vs
Agree g _ _ = Unit

pub translate-Agree :
    (g : ℕ → Bool) (us vs : String) (c : Char)
    → Agree g us vs
    → g (code (translate us vs c)) ≡ g (code c)
unfolding Agree translate
translate-Agree g String.[] vs c h = refl
translate-Agree g (String.◌∷◌ u us) String.[] c h = refl
translate-Agree g (String.◌∷◌ u us) (String.◌∷◌ v vs) c h =
    elim (Bool-cases (eqb (code c) (code u))) [
      | inl same ↦ rw same (h.0 ∙ ap g (code_of (code c) (code u) same))
      | inr differ ↦ rw differ (translate-Agree g us vs c h.1)
    ]
  where
    code_of : (m n : ℕ) → eqb m n ≡ true → n ≡ m
    code_of m n e = ground (arith, e)

pub AllOf : (Char → Type 0) → String → Type 0
AllOf P String.[] = Unit
AllOf P (String.◌∷◌ v vs) = P v × AllOf P vs

pub translate-AllOf :
    (P : Char → Type 0) (us vs : String) (c : Char)
    → AllOf P vs
    → (translate us vs c ≡ c) ⊎ P (translate us vs c)
unfolding AllOf translate
translate-AllOf P String.[] vs c h = inl refl
translate-AllOf P (String.◌∷◌ u us) String.[] c h = inl refl
translate-AllOf P (String.◌∷◌ u us) (String.◌∷◌ v vs) c h =
    elim (Bool-cases (eqb (code c) (code u))) [
      | inl same ↦ inr (rw same h.0)
      | inr differ ↦ rw differ (translate-AllOf P us vs c h.1)
    ]

abbrev pub blank_code : ℕ → Bool
blank_code n = eqb n 32 || (leb 9 n && leb n 13) || (leb 28 n && leb n 31)

abbrev pub capitals : String
capitals = "ABCDEFGHIJKLMNOPQRSTUVWXYZ"

abbrev pub small : String
small = "abcdefghijklmnopqrstuvwxyz"

pub is_blank-lower_char : (c : Char) → is_blank (lower_char c) ≡ is_blank c
unfolding is_blank lower_char Agree
is_blank-lower_char c = translate-Agree blank_code capitals small c (
  refl,
  (
    refl,
    (
      refl,
      (
        refl,
        (
          refl,
          (
            refl,
            (
              refl,
              (
                refl,
                (
                  refl,
                  (
                    refl,
                    (
                      refl,
                      (
                        refl,
                        (
                          refl,
                          (
                            refl,
                            (
                              refl,
                              (
                                refl,
                                (
                                  refl,
                                  (
                                    refl,
                                    (
                                      refl,
                                      (refl, (refl, (refl, (refl, (refl, (refl, (refl, tt))))))),
                                    ),
                                  ),
                                ),
                              ),
                            ),
                          ),
                        ),
                      ),
                    ),
                  ),
                ),
              ),
            ),
          ),
        ),
      ),
    ),
  ),
)

pub lower_char-lower_char : (c : Char) → lower_char (lower_char c) ≡ lower_char c
unfolding lower_char translate AllOf
lower_char-lower_char c =
    elim (translate-AllOf (λ v. translate capitals small v ≡ v) capitals small c
      (
        refl,
        (
          refl,
          (
            refl,
            (
              refl,
              (
                refl,
                (
                  refl,
                  (
                    refl,
                    (
                      refl,
                      (
                        refl,
                        (
                          refl,
                          (
                            refl,
                            (
                              refl,
                              (
                                refl,
                                (
                                  refl,
                                  (
                                    refl,
                                    (
                                      refl,
                                      (
                                        refl,
                                        (
                                          refl,
                                          (
                                            refl,
                                            (
                                              refl,
                                              (refl, (refl, (refl, (refl, (refl, (refl, tt)))))),
                                            ),
                                          ),
                                        ),
                                      ),
                                    ),
                                  ),
                                ),
                              ),
                            ),
                          ),
                        ),
                      ),
                    ),
                  ),
                ),
              ),
            ),
          ),
        ),
      )) [ inl same ↦ ap (translate capitals small) same | inr fixed ↦ fixed ]

pub lower-lower : (s : String) → lower (lower s) ≡ lower s
unfolding lower
lower-lower String.[] = refl
lower-lower (String.◌∷◌ c s) =
    ap (λ d. String.◌∷◌ d (lower (lower s))) (lower_char-lower_char c)
    ∙ ap (String.◌∷◌ (lower_char c)) (lower-lower s)
