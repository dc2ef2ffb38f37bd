-- ===== src/Gamestream/Client/Steps.antt =====
-- Reasoning about the steps of libgamestream/client.c: inversion of a sequence that came to its
-- end, and the steps that leave the server's record alone and exit with an error only.
use moonlight_embedded_for_d.Base.{ℤ, ◌≡◌, refl, sym, ap, ◌∙◌, Bool, true, false, Text}
use moonlight_embedded_for_d.Gamestream.Errors.{is_ok}
use moonlight_embedded_for_d.Gamestream.Client.{
  Server, Session, Outcome, done, exit, M, ◌>>=◌, ◌>>◌, pure, leave, leave_saying, server_of,
  session_of, require, require_saying, modify_server,
}

module _ {A B : Type 0} where
  abbrev Inverted : Outcome A × Session → (A → M B) → B → Session → Type 0
  Inverted r f b t = (a : A) × (s' : Session) × (r ≡ (done a, s')) × (f a s' ≡ (done b, t))

  invert :
      (r : Outcome A × Session) (f : A → M B) (b : B) (t : Session)
      → (let (o, s') = r in
          elim o as (λ _. Outcome B × Session) [ done a ↦ f a s' | exit e ↦ (exit e, s') ])
        ≡ (done b, t)
      → Inverted r f b t
  invert (done a, s') f b t e = (a, s', refl, e)
  invert (exit r, s') f b t e = cc

  -- A sequence that came to its end: both of its parts did.
  pub >>=-eq-done :
      (m : M A) (f : A → M B) (s : Session) {b : B} {t : Session}
      → (m >>= f) s ≡ (done b, t)
      → Inverted (m s) f b t
  unfolding ◌>>=◌
  >>=-eq-done m f s {b} {t} e = invert (m s) f b t e

pub >>-eq-done :
    {B : Type 0} (m : M (Unit {0})) (k : M B) (s : Session) {b : B} {t : Session}
    → (m >> k) s ≡ (done b, t)
    → (s' : Session) × (m s ≡ (done tt, s')) × (k s' ≡ (done b, t))
unfolding ◌>>=◌ ◌>>◌
>>-eq-done m k s e = let (a, s', p, q) = >>=-eq-done m (λ _. k) s e in (s', p, q)

-- A sequence whose first part exits, or comes to its end.
pub >>-exit :
    {B : Type 0} (m : M (Unit {0})) (k : M B) (s : Session) {c : ℤ} {t : Session}
    → m s ≡ (exit c, t)
    → (m >> k) s ≡ (exit c, t)
unfolding ◌>>◌
>>-exit {B} m k s e =
    ap
      (λ (p : Outcome (Unit {0}) × Session).
        let (o, s') = p in
        elim o as (λ _. Outcome B × Session) [ done _ ↦ k s' | exit r ↦ (exit r, s') ])
      e

pub >>-done :
    {B : Type 0} (m : M (Unit {0})) (k : M B) (s : Session) {t : Session}
    → m s ≡ (done tt, t)
    → (m >> k) s ≡ k t
unfolding ◌>>◌
>>-done {B} m k s e =
    ap
      (λ (p : Outcome (Unit {0}) × Session).
        let (o, s') = p in
        elim o as (λ _. Outcome B × Session) [ done _ ↦ k s' | exit r ↦ (exit r, s') ])
      e

pub >>=-done :
    {A B : Type 0} (m : M A) (f : A → M B) (s : Session) {a : A} {t : Session}
    → m s ≡ (done a, t)
    → (m >>= f) s ≡ f a t
unfolding ◌>>=◌
>>=-done {A} {B} m f s e =
    ap
      (λ (p : Outcome A × Session).
        let (o, s') = p in
        elim o as (λ _. Outcome B × Session) [ done a ↦ f a s' | exit r ↦ (exit r, s') ])
      e

-- Two sequences that came to their ends in the same way.
pub done-injective :
    {A : Type 0} {a b : A} {s t : Session}
    → ◌≡◌ {A = Outcome A × Session} (done a, s) (done b, t)
    → (a ≡ b) × (s ≡ t)
done-injective {A} {a} e = (
  ap (λ (p : Outcome A × Session). elim (p.0) [ done x ↦ x | exit _ ↦ a ]) e,
  ap (λ (p : Outcome A × Session). p.1) e,
)

pub modify_server-eq-done :
    (f : Server → Server) (s : Session) {u : Unit {0}} {t : Session}
    → modify_server f s ≡ (done u, t)
    → t.server ≡ f s.server
unfolding modify_server
modify_server-eq-done f s e = sym (ap (λ (x : Session). x.server) (done-injective e).1)

-- Reading the server's record does nothing else.
pub server_of-eq :
    {B : Type 0} (f : Server → M B) (s : Session) {r : Outcome B × Session}
    → (server_of >>= f) s ≡ r
    → f s.server s ≡ r
unfolding server_of ◌>>=◌
server_of-eq f s e = e

pub require-true : (b : Bool) (r : ℤ) (s : Session) → b ≡ true → require b r s ≡ (done tt, s)
unfolding require
require-true true r s h = refl
require-true false r s h = cc

pub require-false : (b : Bool) (r : ℤ) (s : Session) → b ≡ false → require b r s ≡ (exit r, s)
unfolding require
require-false true r s h = cc
require-false false r s h = refl

pub require-eq-done :
    (b : Bool) (r : ℤ) {s t : Session} {u : Unit {0}}
    → require b r s ≡ (done u, t)
    → (b ≡ true) × (t ≡ s)
unfolding require
require-eq-done true r e = (refl, sym (ap (λ (p : Outcome (Unit {0}) × Session). p.1) e))
require-eq-done false r e = cc

pub require_saying-eq-done :
    (b : Bool) (message : Text) (r : ℤ) {s t : Session} {u : Unit {0}}
    → require_saying b message r s ≡ (done u, t)
    → (b ≡ true) × (t ≡ s)
unfolding require_saying
require_saying-eq-done true message r e =
    (refl, sym (ap (λ (p : Outcome (Unit {0}) × Session). p.1) e))
require_saying-eq-done false message r e = cc

-- An exit is with a code other than GS_OK.
abbrev pub ExitsInError : {A : Type 0} → Outcome A → Type 0
ExitsInError (done a) = Unit {0}
ExitsInError (exit r) = is_ok r ≡ false

-- A step that leaves the server's record as it was, and exits in error if at all.
pub record IsTame {A : Type 0} (m : M A) : Type 0 where
  pub apply : (s : Session) → ((m s).1.server ≡ s.server) × ExitsInError (m s).0

module _ {A B : Type 0} where
  tame_result :
      (r : Outcome A × Session) (f : A → M B) (v : Server)
      → (r.1.server ≡ v) × ExitsInError r.0
      → ((a : A) → IsTame (f a))
      → let q =
          (let (o, s') = r in
            elim o as (λ _. Outcome B × Session) [ done a ↦ f a s' | exit e ↦ (exit e, s') ]) in
        (q.1.server ≡ v) × ExitsInError q.0
  tame_result (done a, s') f v h hf = (((hf a).apply s').0 ∙ h.0, ((hf a).apply s').1)
  tame_result (exit r, s') f v h hf = h

  pub >>=-IsTame : (m : M A) (f : A → M B) → IsTame m → ((a : A) → IsTame (f a)) → IsTame (m >>= f)
  unfolding ◌>>=◌
  >>=-IsTame m f h hf = record { apply = λ s. tame_result (m s) f s.server (h.apply s) hf }

pub >>-IsTame : {B : Type 0} (m : M (Unit {0})) (k : M B) → IsTame m → IsTame k → IsTame (m >> k)
unfolding ◌>>=◌ ◌>>◌
>>-IsTame m k h hk = >>=-IsTame m (λ _. k) h (λ _. hk)

pub pure-IsTame : {A : Type 0} (a : A) → IsTame (pure a)
unfolding pure
pure-IsTame a = record { apply = λ s. (refl, tt) }

pub server_of-IsTame : IsTame server_of
unfolding server_of
server_of-IsTame = record { apply = λ s. (refl, tt) }

pub session_of-IsTame : IsTame session_of
unfolding session_of
session_of-IsTame = record { apply = λ s. (refl, tt) }

pub leave_saying-IsTame :
    (A : Type 0) (message : Text) (r : ℤ)
    → is_ok r ≡ false
    → IsTame (leave_saying {A = A} message r)
unfolding leave_saying
leave_saying-IsTame A message r h = record { apply = λ s. (refl, h) }

pub leave-IsTame : (A : Type 0) (r : ℤ) → is_ok r ≡ false → IsTame (leave {A = A} r)
unfolding leave
leave-IsTame A r h = record { apply = λ s. (refl, h) }

pub require-IsTame : (b : Bool) (r : ℤ) → (b ≡ false → is_ok r ≡ false) → IsTame (require b r)
unfolding require
require-IsTame true r h = record { apply = λ s. (refl, tt) }
require-IsTame false r h = record { apply = λ s. (refl, h refl) }

pub require_saying-IsTame :
    (b : Bool) (message : Text) (r : ℤ) → is_ok r ≡ false → IsTame (require_saying b message r)
unfolding require_saying
require_saying-IsTame true message r h = record { apply = λ s. (refl, tt) }
require_saying-IsTame false message r h = record { apply = λ s. (refl, h) }

-- A step that exits in error if at all, whatever it does to the server's record.
pub record FailsInError {A : Type 0} (m : M A) : Type 0 where
  pub apply : (s : Session) → ExitsInError (m s).0

module _ {A B : Type 0} where
  fails_result :
      (r : Outcome A × Session) (f : A → M B)
      → ExitsInError r.0
      → ((a : A) → FailsInError (f a))
      → let q =
          (let (o, s') = r in
            elim o as (λ _. Outcome B × Session) [ done a ↦ f a s' | exit e ↦ (exit e, s') ]) in
        ExitsInError q.0
  fails_result (done a, s') f h hf = (hf a).apply s'
  fails_result (exit r, s') f h hf = h

  pub >>=-FailsInError :
      (m : M A) (f : A → M B)
      → FailsInError m
      → ((a : A) → FailsInError (f a))
      → FailsInError (m >>= f)
  unfolding ◌>>=◌
  >>=-FailsInError m f h hf = record { apply = λ s. fails_result (m s) f (h.apply s) hf }

pub >>-FailsInError :
    {B : Type 0} (m : M (Unit {0})) (k : M B)
    → FailsInError m
    → FailsInError k
    → FailsInError (m >> k)
unfolding ◌>>=◌ ◌>>◌
>>-FailsInError m k h hk = >>=-FailsInError m (λ _. k) h (λ _. hk)

pub IsTame-FailsInError : {A : Type 0} (m : M A) → IsTame m → FailsInError m
IsTame-FailsInError m h = record { apply = λ s. (h.apply s).1 }

pub modify_server-FailsInError : (f : Server → Server) → FailsInError (modify_server f)
unfolding modify_server
modify_server-FailsInError f = record { apply = λ s. tt }
