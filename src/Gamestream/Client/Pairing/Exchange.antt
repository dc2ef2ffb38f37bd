-- ===== src/Gamestream/Client/Pairing/Exchange.antt =====
-- The five exchanges of `gs_pair` in libgamestream/client.c, and the cryptography between them.
use moonlight_embedded_for_d.Base.{
  ℕ, ◌*◌, ◌/◌, ℤ, pos, leb_ℤ, Bool, false, List, [], ◌∷◌, ◌++◌, Option, none, some, Text, chars,
  str_eq, c_string, leb, ltb, length, take, drop, if◌then◌else◌,
}
use moonlight_embedded_for_d.Gamestream.Errors.{gs_failed, gs_invalid, is_ok}
use moonlight_embedded_for_d.Gamestream.Http.{HttpData, http_create_data}
use moonlight_embedded_for_d.Gamestream.Hex.{bytes_to_hex, hex_to_bytes}
use moonlight_embedded_for_d.Gamestream.Client.{
  Host, M, ◌>>=◌, ◌>>◌, pure, leave_saying, server_of, session_of, require, require_saying,
}
use moonlight_embedded_for_d.Gamestream.Client.Requests.{
  draw_uuid, request_ok, status_of, search_ok, search_or, command_url, pair_request_wait_paired,
}

-- What every pairing address has behind the client's id and the uuid.
abbrev pub pair_query : Text → Text → Text
pair_query name value = chars "&devicename=roth&updateState=1&" ++ (name ++ (chars "=" ++ value))

module _ (host : Host) where
  -- SHA-256 from version 7 on, SHA-1 before.
  unfoldable pub hash_for : ℤ → List ℕ → List ℕ
  hash_for version bytes = if leb_ℤ (pos 7) version then host.sha256 bytes else host.sha1 bytes

  unfoldable pub hash_length : ℤ → ℕ
  hash_length version = if leb_ℤ (pos 7) version then 32 else 20

  -- The hash of the salt and the four bytes of the PIN's buffer; AES-128 reads 16 bytes of it.
  unfoldable pub derive_key : ℤ → List ℕ → Text → List ℕ
  unfolding hash_for
  derive_key version salt pin =
      take 16 (hash_for version (salt ++ take 4 (pin ++ (0 ∷ 0 ∷ 0 ∷ 0 ∷ []))))

  -- A request of `/pair` with one parameter.
  unfoldable pub pair_request : Text → Text → HttpData → M HttpData
  pair_request name value mem = do
    uuid ← draw_uuid host
    server ← server_of
    url ←
        command_url host 16384 (chars "http") (chars "pair") server.http_port uuid
          (pair_query name value)
    request_ok host url mem

  -- `if ((ret = xml_status(...) != GS_OK)) goto cleanup;`, where `=` binds last: on an error `ret`
  -- is the value of the comparison, 1. Then `paired` is looked for and compared.
  unfoldable pub confirm_paired : HttpData → M (Unit {0})
  confirm_paired mem = do
    ret ← status_of host mem
    require (is_ok ret) (pos 1)
    paired ← search_ok host mem (chars "paired")
    require_saying (str_eq paired (chars "1")) (chars "Pairing failed") gs_failed

  -- The host's certificate, for which the user has to confirm the PIN.
  unfoldable pub server_cert : List ℕ → M (HttpData × List ℕ)
  server_cert salt = do
    uuid ← draw_uuid host
    session ← session_of
    url ← command_url host 16384 (chars "http") (chars "pair") session.server.http_port uuid (
        pair_query (chars "phrase") (
          chars "getservercert&salt="
          ++ (bytes_to_hex salt ++ (chars "&clientcert=" ++ session.cert_hex))))
    mem ← pair_request_wait_paired host url http_create_data
    result ← search_ok host mem (chars "plaincert")
    let len = length result / 2
    pure (mem, hex_to_bytes (take (len * 2) result) (take len host.stale))

  -- The client's challenge under the key; the answer is 64 bytes, which `decrypt` opens.
  unfoldable pub client_challenge : List ℕ → List ℕ → HttpData → M (HttpData × List ℕ)
  client_challenge key challenge mem = do
    mem' ←
        pair_request (chars "clientchallenge") (bytes_to_hex (host.aes_encrypt key challenge)) mem
    confirm_paired mem'
    result ← search_or host gs_invalid mem' (chars "challengeresponse")
    require_saying (leb (length result / 2) 64) (chars "Server challenge response too big")
        gs_failed
    pure (mem', host.aes_decrypt key (hex_to_bytes result (take 64 host.stale)))

  -- The hash that answers the host's challenge, and the host's pairing secret.
  unfoldable pub server_challenge_response :
      List ℕ → List ℕ → List ℕ → HttpData → M (HttpData × List ℕ)
  server_challenge_response key response secret mem = do
    server ← server_of
    let version = server.server_major_version
    let answer = take 16 (drop (hash_length version) response) ++ (host.own_signature ++ secret)
    let hash = take 32 (hash_for version answer ++ host.stale)
    mem' ← pair_request (chars "serverchallengeresp") (bytes_to_hex (host.aes_encrypt key hash)) mem
    confirm_paired mem'
    result ← search_or host gs_invalid mem' (chars "pairingsecret")
    let len = length result / 2
    require (ltb 16 len) gs_invalid
    pure (mem', hex_to_bytes (take (len * 2) result) (take len host.stale))

  -- `verifySignature`
  unfoldable pub verify_signature : List ℕ → List ℕ → Text → Bool
  verify_signature bytes signature cert = elim (host.pem_signature cert) [
    | none ↦ false
    | some _ ↦ host.digest_verify bytes signature cert
  ]

  -- The first bytes of the decrypted answer that a host which knows the PIN must have sent.
  unfoldable pub expected_response : ℤ → List ℕ → List ℕ → List ℕ → List ℕ
  unfolding hash_for hash_length
  expected_response version challenge signature pairing_secret =
      take (hash_length version)
        (hash_for version (challenge ++ (signature ++ take 16 pairing_secret)))

  -- Was the answer made with the same PIN? The signature is that in the host's certificate.
  unfoldable pub check_answer : ℤ → List ℕ → List ℕ → List ℕ → Option (List ℕ) → M (Unit {0})
  check_answer version challenge response pairing_secret none =
      leave_saying (chars "Error loading server cert into memory") gs_failed
  check_answer version challenge response pairing_secret (some signature) =
      require_saying
        (str_eq (expected_response version challenge signature pairing_secret)
          (take (hash_length version) response))
        (chars "Incorrect PIN") gs_failed

  -- Is the secret signed by the certificate, and was the answer made with the same PIN?
  unfoldable pub check_pairing_secret : List ℕ → List ℕ → List ℕ → List ℕ → M (Unit {0})
  check_pairing_secret challenge response pairing_secret plaincert = do
    server ← server_of
    let cert = c_string plaincert
    require_saying (verify_signature (take 16 pairing_secret) (drop 16 pairing_secret) cert)
        (chars "MITM attack detected") gs_failed
    check_answer server.server_major_version challenge response pairing_secret
        (host.pem_signature cert)

  unfoldable pub send_secret : List ℕ → HttpData → Option (List ℕ) → M (Unit {0})
  send_secret secret mem none = leave_saying (chars "Failed to sign data") gs_failed
  send_secret secret mem (some signature) = do
    mem' ← pair_request (chars "clientpairingsecret") (bytes_to_hex (secret ++ signature)) mem
    confirm_paired mem'

  -- The client's secret with its signature, which the host has to accept.
  unfoldable pub client_pairing_secret : List ℕ → HttpData → M (Unit {0})
  client_pairing_secret secret mem = send_secret secret mem (host.digest_sign secret)
