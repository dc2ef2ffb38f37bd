-- ===== src/Gamestream/Client/Pairing/Waiting.antt =====
-- The wait for the user's confirmation in libgamestream/client.c.
use moonlight_embedded_for_d.Base.{
  ℕ, zero, suc, ◌+◌, ◌*◌, ◌≤◌, ◌≡◌, refl, ap, true, Text, leb, arith,
}
use mathlib.Core.Path.{fun_ext}
use moonlight_embedded_for_d.Gamestream.Http.{HttpData}
use moonlight_embedded_for_d.Gamestream.Client.{Host, M}
use moonlight_embedded_for_d.Gamestream.Client.Requests.{wait_paired, wait_round}

module _ (host : Host) where
  wait_round_late :
      (again again' : HttpData → M HttpData) (url : Text) (mem : HttpData)
      → wait_round host again true url mem ≡ wait_round host again' true url mem
  unfolding wait_round
  wait_round_late again again' url mem = refl

  -- A round that finds the time over does not look at the rounds after it.
  late_rounds :
      (again again' : HttpData → M HttpData) (url : Text) (mem : HttpData) (elapsed timeout : ℕ)
      → timeout ≤ elapsed
      → wait_round host again (leb timeout elapsed) url mem
        ≡ wait_round host again' (leb timeout elapsed) url mem
  late_rounds again again' url mem elapsed timeout h =
      let late : leb timeout elapsed ≡ true = ground arith in
      rw late (wait_round_late again again' url mem)

  -- Any fuel that covers the rounds until the timeout gives the same result as any other, so the
  -- bound on the rounds is never what ends the wait.
  pub wait_paired_fuel :
      (f g : ℕ) (url : Text) (mem : HttpData) (elapsed timeout : ℕ)
      → timeout ≤ elapsed + 1000 * f
      → timeout ≤ elapsed + 1000 * g
      → wait_paired host (suc f) url mem elapsed timeout
        ≡ wait_paired host (suc g) url mem elapsed timeout
  unfolding wait_paired
  wait_paired_fuel zero g url mem elapsed timeout hf hg =
      late_rounds _ _ url mem elapsed timeout (omega arith)
  wait_paired_fuel (suc f) zero url mem elapsed timeout hf hg =
      late_rounds _ _ url mem elapsed timeout (omega arith)
  wait_paired_fuel (suc f) (suc g) url mem elapsed timeout hf hg =
      ap (λ again. wait_round host again (leb timeout elapsed) url mem)
        (fun_ext
          λ m. wait_paired_fuel f g url m (elapsed + 1000) timeout (omega arith) (omega arith))
