-- ===== src/Manifest/Registry.antt =====
-- `TrustedUpdateKeySet`, a list of identifiers with their keys: `new` and `get`.
use ssh_mountmate.Base.{
  ℕ, Bool, not, ◌&&◌, Option, none, some, List, [], ◌∷◌, ◌++◌, all, ◌==◌, length, drop, take,
  if◌then◌else◌, Result, ok, err, ok_or, refuse_if, ◌>>=◌, ◌>>◌,
}
use ssh_mountmate.Text.{
  Text, codes, text_eq, starts_with, is_ascii_hexdigit, is_ascii_uppercase, byte_len,
}
use ssh_mountmate.Dict.{lookup, mem}
use ssh_mountmate.Manifest.Types.{Crates, TrustedUpdateKey, UpdateTrustError}

abbrev pub is_lower_hex : ℕ → Bool
is_lower_hex c = is_ascii_hexdigit c && not (is_ascii_uppercase c)

unfoldable pub valid_key_id : Text → Bool
unfolding byte_len
valid_key_id value =
    byte_len value == 24 && starts_with value (codes "ed25519-") && all is_lower_hex (drop 8 value)

unfoldable pub is_lower_sha256 : Text → Bool
unfolding byte_len
is_lower_sha256 value = byte_len value == 64 && all is_lower_hex value

module _ {K : Type 0} (crates : Crates K) where
  -- The first 16 digits of the SHA-256 of the key.
  abbrev pub key_id_for : K → Text
  key_id_for key = codes "ed25519-" ++ take 16 (crates.fingerprint key)

  -- `try_into` an array of that length.
  abbrev pub sized : ℕ → List ℕ → Option (List ℕ)
  sized n bytes = if length bytes == n then some bytes else none

  unfoldable pub decode_key : TrustedUpdateKey → Result UpdateTrustError K
  decode_key key = do
    decoded ← ok_or (crates.decode_base64 key.public_key) (
        UpdateTrustError.invalid_key_registry
          (codes "public key " ++ (key.key_id ++ codes " is not valid base64")))
    bytes ← ok_or (sized 32 decoded) (
        UpdateTrustError.invalid_key_registry
          (codes "public key " ++ (key.key_id ++ codes " is not 32 bytes")))
    ok_or (crates.key_from_bytes bytes) (
        UpdateTrustError.invalid_key_registry
          (codes "public key " ++ (key.key_id ++ codes " is not Ed25519")))

  -- The identifier must be the fingerprint.
  unfoldable pub check_fingerprint : TrustedUpdateKey → K → Result UpdateTrustError (Text × K)
  check_fingerprint key verifying =
      if not (text_eq key.key_id (key_id_for verifying))
      then err (
          UpdateTrustError.invalid_key_registry (
            codes "key_id "
            ++ (key.key_id
                ++ (codes " does not match public key fingerprint " ++ key_id_for verifying))))
      else ok (key.key_id, verifying)

  -- One key of the loop in `new`.
  unfoldable pub read_key : TrustedUpdateKey → List Text → Result UpdateTrustError (Text × K)
  unfolding valid_key_id decode_key check_fingerprint
  read_key key ids = do
    refuse_if (not (valid_key_id key.key_id))
        (UpdateTrustError.invalid_key_registry (codes "invalid key_id " ++ key.key_id))
    refuse_if (mem key.key_id ids)
        (UpdateTrustError.invalid_key_registry (codes "duplicate key_id " ++ key.key_id))
    verifying ← decode_key key
    check_fingerprint key verifying

  unfoldable pub read_keys :
      List TrustedUpdateKey → List Text → Result UpdateTrustError (List (Text × K))
  unfolding read_key
  read_keys [] ids = ok []
  read_keys (key ∷ rest) ids = do
    parsed ← read_key key ids
    more ← read_keys rest (key.key_id ∷ ids)
    ok (parsed ∷ more)

  -- `TrustedUpdateKeySet::new`
  unfoldable pub new_key_set : List TrustedUpdateKey → Result UpdateTrustError (List (Text × K))
  unfolding read_keys
  new_key_set keys = read_keys keys []

  -- `TrustedUpdateKeySet::get`
  unfoldable pub get : List (Text × K) → Text → Option K
  get keys key_id = lookup key_id keys
