-- ===== src/Input/Gamepad/Arrival/Announced.antt =====
-- The buttons that a gamepad can send are those that it announces.
use moonlight_embedded_for_d.Base.{
  ℕ, ◌<◌, ℤ, pos, ◌==ℤ◌, ◌≤ℤ◌, ◌≡◌, inl, inr, true, some, List, [], ◌∷◌, test_bit, test_bit-set_bit,
  Bool-cases, arith,
}
use moonlight_embedded_for_d.Input.Mapping.{Mapping}
use moonlight_embedded_for_d.Input.Gamepad.State.{gamepad_code, mapped_buttons}
use moonlight_embedded_for_d.Input.Gamepad.Arrival.{supported_flags, announced_buttons}

-- A list has a button at an index.
data Listed (index : ℤ) (code : ℕ) : List (ℤ × ℕ) → Type 0 where
  here :
      {i : ℤ} {flag : ℕ} {rest : List (ℤ × ℕ)}
      → (index ==ℤ i) ≡ true
      → code ≡ flag
      → Listed index code ((i, flag) ∷ rest)
  later : {b : ℤ × ℕ} {rest : List (ℤ × ℕ)} → Listed index code rest → Listed index code (b ∷ rest)

gamepad_code-Listed :
    (index : ℤ) (code : ℕ) (buttons : List (ℤ × ℕ))
    → gamepad_code index buttons ≡ some code
    → Listed index code buttons
unfolding gamepad_code
gamepad_code-Listed index code [] h = absurd (ground (arith, h))
gamepad_code-Listed index code ((i, flag) ∷ rest) h = elim (Bool-cases (index ==ℤ i)) [
  | inl e ↦ here e (ground (arith, h, e))
  | inr e ↦ later (gamepad_code-Listed index code rest (ground (arith, h, e)))
]

supported_flags-Listed :
    (index : ℤ) (code : ℕ) (buttons : List (ℤ × ℕ))
    → pos 0 ≤ℤ index
    → Listed index code buttons
    → test_bit (supported_flags buttons) code ≡ true
unfolding supported_flags
supported_flags-Listed index code [] h k = elim k [ ]
supported_flags-Listed index code ((i, flag) ∷ rest) h (here e f) =
    ground (arith, test_bit-set_bit (supported_flags rest) flag code, h, e, f)
supported_flags-Listed index code ((i, flag) ∷ rest) h (later k) =
    let below = supported_flags-Listed index code rest h k in
    ground (arith, test_bit-set_bit (supported_flags rest) flag code, below)

cases :
    {P : Type 0} {index : ℤ} {code : ℕ} {i : ℤ} {flag : ℕ} {rest : List (ℤ × ℕ)}
    → Listed index code ((i, flag) ∷ rest)
    → ((index ==ℤ i) ≡ true → code ≡ flag → P)
    → (Listed index code rest → P)
    → P
cases (here e f) g k = g e f
cases (later h) g k = k h

announced-Listed :
    (m : Mapping) (index : ℤ) (code : ℕ)
    → 3 < code
    → Listed index code (mapped_buttons m)
    → Listed index code (announced_buttons m)
announced-Listed m index code h k =
    cases k (λ e f. here e f)
      (λ k.
        cases k (λ e f. later (later (here e f)))
          (λ k.
            cases k (λ e f. later (later (later (here e f))))
              (λ k.
                cases k (λ e f. later (here e f))
                  (λ k.
                    cases k (λ e f. absurd (omega (arith, h, f)))
                      (λ k.
                        cases k (λ e f. absurd (omega (arith, h, f)))
                          (λ k.
                            cases k (λ e f. absurd (omega (arith, h, f)))
                              (λ k.
                                cases k (λ e f. absurd (omega (arith, h, f)))
                                  (λ k.
                                    cases k
                                      (λ e f.
                                        later (
                                          later (later (later (later (later (later (here e f))))))))
                                      (λ k.
                                        cases k
                                          (λ e f. later (
                                            later (
                                              later (
                                                later (later (later (later (later (here e f)))))))))
                                          (λ k.
                                            cases k
                                              (λ e f. later (
                                                later (
                                                  later (
                                                    later (
                                                      later (
                                                        later
                                                          (later (later (later (here e f))))))))))
                                              (λ k.
                                                cases k
                                                  (λ e f. later (
                                                    later (
                                                      later (
                                                        later (
                                                          later (
                                                            later (
                                                            later (
                                                            later (later (later (here e f)))))))))))
                                                  (λ k.
                                                    cases k
                                                      (λ e f.
                                                        later (
                                                          later (later (later (later (here e f))))))
                                                      (λ k.
                                                        cases k
                                                          (λ e f.
                                                            later
                                                            (later (later (later (here e f)))))
                                                          (λ k.
                                                            cases k
                                                            (λ e f. later (
                                                            later (
                                                            later
                                                            (later (later (later (here e f)))))))
                                                            (λ k.
                                                            cases k
                                                            (λ e f. later (
                                                            later (
                                                            later (
                                                            later (
                                                            later (
                                                            later (
                                                            later (
                                                            later (
                                                            later
                                                            (later (later (here e f))))))))))))
                                                            (λ k.
                                                            cases k
                                                            (λ e f. later (
                                                            later (
                                                            later (
                                                            later (
                                                            later (
                                                            later (
                                                            later (
                                                            later (
                                                            later (
                                                            later
                                                            (later (later (here e f)))))))))))))
                                                            (λ k.
                                                            cases k
                                                            (λ e f. later (
                                                            later (
                                                            later (
                                                            later (
                                                            later (
                                                            later (
                                                            later (
                                                            later (
                                                            later (
                                                            later (
                                                            later
                                                            (later (later (here e f))))))))))))))
                                                            (λ k.
                                                            cases k
                                                            (λ e f. later (
                                                            later (
                                                            later (
                                                            later (
                                                            later (
                                                            later (
                                                            later (
                                                            later (
                                                            later (
                                                            later (
                                                            later (
                                                            later
                                                            (later (later (here e f)))))))))))))))
                                                            (λ k.
                                                            cases k
                                                            (λ e f. later (
                                                            later (
                                                            later (
                                                            later (
                                                            later (
                                                            later (
                                                            later (
                                                            later (
                                                            later (
                                                            later (
                                                            later (
                                                            later (
                                                            later
                                                            (later (later (here e f))))))))))))))))
                                                            (λ k.
                                                            cases k
                                                            (λ e f. later (
                                                            later (
                                                            later (
                                                            later (
                                                            later (
                                                            later (
                                                            later (
                                                            later (
                                                            later (
                                                            later (
                                                            later (
                                                            later (
                                                            later (
                                                            later
                                                            (later (later (here e f)))))))))))))))))
                                                            (λ k. elim k [ ])))))))))))))))))))))

-- Whatever button of a mapping an index stands for, other than the direction pad: if the index is
-- one that `key_map` gives, the button is among those that the arrival of the gamepad announces.
pub gamepad_code-announced :
    (m : Mapping) (index : ℤ) (code : ℕ)
    → pos 0 ≤ℤ index
    → 3 < code
    → gamepad_code index (mapped_buttons m) ≡ some code
    → test_bit (supported_flags (announced_buttons m)) code ≡ true
gamepad_code-announced m index code h k e =
    supported_flags-Listed index code (announced_buttons m) h
      (announced-Listed m index code k (gamepad_code-Listed index code (mapped_buttons m) e))
