-- ===== src/Gamestream/Client/Pairing/Evidence.antt =====
-- What `gs_pair` of libgamestream/client.c goes by, in terms of what the host has sent.
use moonlight_embedded_for_d.Base.{
  ℕ, suc, ◌≡◌, true, List, ◌∷◌, ◌++◌, Text, chars, c_string, take, drop, snprintf, some,
}
use moonlight_embedded_for_d.Gamestream.Hex.{bytes_to_hex, hex_to_bytes}
use moonlight_embedded_for_d.Gamestream.Client.{Session, Host}
use moonlight_embedded_for_d.Gamestream.Client.Requests.Answers.{
  answer, text_in, is_answered, is_document,
}
use moonlight_embedded_for_d.Gamestream.Client.Pairing.Asked.{bytes_in}
use moonlight_embedded_for_d.Gamestream.Client.Pairing.Exchange.{
  pair_query, derive_key, hash_length, verify_signature, expected_response,
}

module _ (host : Host) where
  -- The last of the addresses was answered, by a document.
  abbrev pub IsAnswered : List Text → Type 0
  IsAnswered urls = (is_answered host urls ≡ true) × (is_document host (answer host urls) ≡ true)

  -- What the host sent in answer to the last of the addresses: its certificate, its pairing secret,
  -- and its answer to the challenge.
  unfoldable pub sent_cert : List Text → List ℕ
  sent_cert urls = bytes_in host (text_in host (answer host urls) (chars "plaincert"))

  unfoldable pub sent_secret : List Text → List ℕ
  sent_secret urls = bytes_in host (text_in host (answer host urls) (chars "pairingsecret"))

  unfoldable pub sent_answer : List Text → List ℕ
  sent_answer urls =
      hex_to_bytes (text_in host (answer host urls) (chars "challengeresponse"))
        (take 64 host.stale)

-- The host holds the key of the certificate that it sent, and derived the client's key from the salt
-- and the PIN. `secrets`, `challenges` and `certs` are the addresses asked when the secret, the
-- answer and the certificate were sent; the challenge was asked right behind the certificate.
pub record Evidence (host : Host) (pin : Text) (s : Session) (secrets challenges certs : List Text)
    : Type 0 where
  pub cert_answered : IsAnswered host certs
  pub challenge_answered : IsAnswered host challenges
  pub secret_answered : IsAnswered host secrets
  pub prefix : Text
  pub challenge_asked :
      challenges
      ≡ snprintf 16384 (
          prefix
          ++ pair_query (chars "clientchallenge") (
              bytes_to_hex (
                host.aes_encrypt
                  (derive_key host s.server.server_major_version (host.random s.draws 16) pin)
                  (host.random (suc (suc s.draws)) 16))))
        ∷ certs
  pub signature : List ℕ
  pub has_signature : host.pem_signature (c_string (sent_cert host certs)) ≡ some signature
  pub signed :
      verify_signature host
        (take 16 (sent_secret host secrets))
        (drop 16 (sent_secret host secrets))
        (c_string (sent_cert host certs))
      ≡ true
  pub same_pin :
      expected_response host s.server.server_major_version
        (host.random (suc (suc s.draws)) 16)
        signature
        (sent_secret host secrets)
      ≡ take (hash_length host s.server.server_major_version) (
          host.aes_decrypt
            (derive_key host s.server.server_major_version (host.random s.draws 16) pin)
            (sent_answer host challenges))
