-- ===== src/Runner/Setup/Credentials.antt =====
-- OriginalLinuxCode/QMSP_Runner.c: what the flags of the client's credentials ask for.
use qmsp.Base.{ℕ, ◌≡◌, refl, List, Option, none, some, Bool, true, false, bit_and, truthy, ◌||◌}
use qmsp.Runner.Setup.{client_credentials, no_validation_flag}

abbrev pub is_given : Option (List ℕ) → Bool
is_given none = false
is_given (some file) = true

-- The server's certificate is left unchecked exactly if the client is told to be unsecure or is given
-- a file of certificates.
pub client_credentials_lem :
    (unsecure : Bool) (cert : Option (List ℕ))
    → truthy (bit_and (client_credentials unsecure cert).0 no_validation_flag)
      ≡ unsecure || is_given cert
unfolding client_credentials
client_credentials_lem true none = refl
client_credentials_lem true (some file) = refl
client_credentials_lem false none = refl
client_credentials_lem false (some file) = refl
