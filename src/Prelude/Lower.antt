-- ===== src/Prelude/Lower.antt =====
-- A text in lower case stays as it is.
use Prim.Native.Nat.{ℕ, zero, suc, ◌-◌, ◌<◌}
use Prim.Native.Char.{Char, code}
use Prim.Native.String.{String, char_at}
use mathlib.Core.Path.{◌≡◌, refl}
use mathlib.Core.Bool.{true, false, ◌&&◌}
use mathlib.Core.Logic.{inl, inr}
use native.Mathlib.Omega.{arith}
use hypersdk_go.Prelude.Tests.{leb, Bool-cases}
use hypersdk_go.Prelude.Texts.{lower_char, to_lower}

lower_letter :
    (d : ℕ)
    → d < 26
    → lower_char (char_at "abcdefghijklmnopqrstuvwxyz" d) ≡ char_at "abcdefghijklmnopqrstuvwxyz" d
unfolding lower_char
lower_letter zero h = refl
lower_letter (suc zero) h = refl
lower_letter (suc (suc zero)) h = refl
lower_letter (suc (suc (suc zero))) h = refl
lower_letter (suc (suc (suc (suc zero)))) h = refl
lower_letter (suc (suc (suc (suc (suc zero))))) h = refl
lower_letter (suc (suc (suc (suc (suc (suc zero)))))) h = refl
lower_letter (suc (suc (suc (suc (suc (suc (suc zero))))))) h = refl
lower_letter (suc (suc (suc (suc (suc (suc (suc (suc zero)))))))) h = refl
lower_letter (suc (suc (suc (suc (suc (suc (suc (suc (suc zero))))))))) h = refl
lower_letter (suc (suc (suc (suc (suc (suc (suc (suc (suc (suc zero)))))))))) h = refl
lower_letter (suc (suc (suc (suc (suc (suc (suc (suc (suc (suc (suc zero))))))))))) h = refl
lower_letter (suc (suc (suc (suc (suc (suc (suc (suc (suc (suc (suc (suc zero)))))))))))) h = refl
lower_letter (suc (suc (suc (suc (suc (suc (suc (suc (suc (suc (suc (suc (suc zero))))))))))))) h =
    refl
lower_letter
      (suc (suc (suc (suc (suc (suc (suc (suc (suc (suc (suc (suc (suc (suc zero)))))))))))))) h =
    refl
lower_letter
      (suc (suc (suc (suc (suc (suc (suc (suc (suc (suc (suc (suc (suc (suc (suc zero)))))))))))))))
      h =
    refl
lower_letter
      (suc (
        suc
          (suc (suc (suc (suc (suc (suc (suc (suc (suc (suc (suc (suc (suc (suc zero))))))))))))))))
      h =
    refl
lower_letter
      (suc (
        suc (
          suc (
            suc
              (suc (suc (suc (suc (suc (suc (suc (suc (suc (suc (suc (suc (suc zero)))))))))))))))))
      h =
    refl
lower_letter
      (suc (
        suc (
          suc (
            suc (
              suc (
                suc
                  (suc (suc (suc (suc (suc (suc (suc (suc (suc (suc (suc (suc zero))))))))))))))))))
      h =
    refl
lower_letter
      (suc (
        suc (
          suc (
            suc (
              suc (
                suc (
                  suc (
                    suc
                      (suc (suc (suc (suc (suc (suc (suc (suc (suc (suc (suc zero)))))))))))))))))))
      h =
    refl
lower_letter
      (suc (
        suc (
          suc (
            suc (
              suc (
                suc (
                  suc (
                    suc (
                      suc (
                        suc
                          (suc (suc (suc (suc (suc (suc (suc (suc (suc (suc zero))))))))))))))))))))
      h =
    refl
lower_letter
      (suc (
        suc (
          suc (
            suc (
              suc (
                suc (
                  suc (
                    suc (
                      suc (
                        suc (
                          suc (
                            suc
                              (suc (suc (suc (suc (suc (suc (suc (suc (suc zero)))))))))))))))))))))
      h =
    refl
lower_letter
      (suc (
        suc (
          suc (
            suc (
              suc (
                suc (
                  suc (
                    suc (
                      suc (
                        suc (
                          suc (
                            suc (
                              suc (
                                suc
                                  (suc (suc (suc (suc (suc (suc (suc (suc zero))))))))))))))))))))))
      h =
    refl
lower_letter
      (suc (
        suc (
          suc (
            suc (
              suc (
                suc (
                  suc (
                    suc (
                      suc (
                        suc (
                          suc (
                            suc (
                              suc (
                                suc (
                                  suc (
                                    suc
                                      (suc (suc (suc (suc (suc (suc (suc zero)))))))))))))))))))))))
      h =
    refl
lower_letter
      (suc (
        suc (
          suc (
            suc (
              suc (
                suc (
                  suc (
                    suc (
                      suc (
                        suc (
                          suc (
                            suc (
                              suc (
                                suc (
                                  suc (
                                    suc (
                                      suc (
                                        suc
                                          (suc (suc (suc (suc (suc (suc zero))))))))))))))))))))))))
      h =
    refl
lower_letter
      (suc (
        suc (
          suc (
            suc (
              suc (
                suc (
                  suc (
                    suc (
                      suc (
                        suc (
                          suc (
                            suc (
                              suc (
                                suc (
                                  suc (
                                    suc (
                                      suc (
                                        suc (
                                          suc (
                                            suc
                                              (suc (suc (suc (suc (suc zero)))))))))))))))))))))))))
      h =
    refl
lower_letter
      (suc (
        suc (
          suc (
            suc (
              suc (
                suc (
                  suc (
                    suc (
                      suc (
                        suc (
                          suc (
                            suc (
                              suc (
                                suc (
                                  suc (
                                    suc (
                                      suc (
                                        suc (
                                          suc (
                                            suc (
                                              suc
                                                (suc (suc (suc (suc (suc d))))))))))))))))))))))))))
      h =
    absurd (omega arith)

upper_letter :
    (c : Char)
    → (leb 65 (code c) && leb (code c) 90) ≡ true
    → lower_char c ≡ char_at "abcdefghijklmnopqrstuvwxyz" (code c - 65)
unfolding lower_char
upper_letter c h = rw h refl

other_char : (c : Char) → (leb 65 (code c) && leb (code c) 90) ≡ false → lower_char c ≡ c
unfolding lower_char
other_char c h = rw h refl

lower_char-twice : (c : Char) → lower_char (lower_char c) ≡ lower_char c
lower_char-twice c = elim (Bool-cases (leb 65 (code c) && leb (code c) 90)) [
  | inl upper ↦ rw (upper_letter c upper) (lower_letter (code c - 65) (ground arith))
  | inr other ↦ rw (other_char c other) (other_char c other)
]

put_together : (c d : Char) (s t : String) → c ≡ d → s ≡ t → String.◌∷◌ c s ≡ String.◌∷◌ d t
put_together c d s t h k = λ i. String.◌∷◌ (h i) (k i)

pub to_lower-twice : (s : String) → to_lower (to_lower s) ≡ to_lower s
unfolding to_lower
to_lower-twice String.[] = refl
to_lower-twice (String.◌∷◌ c s) =
    put_together (lower_char (lower_char c)) (lower_char c) (to_lower (to_lower s)) (to_lower s)
      (lower_char-twice c) (to_lower-twice s)
