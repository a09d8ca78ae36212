-- ===== src/Runner/Setup.antt =====
-- OriginalLinuxCode/QMSP_Runner.c: `main`, RunServer and the configurations: what is set up and taken
-- down, by what MsQuic answers.
pub mod Nesting
pub mod Credentials
use qmsp.Base.{
  ℕ, ◌+◌, List, [], ◌∷◌, ◌++◌, Option, none, some, Bool, true, false, ◌&&◌, ◌||◌, not,
  if◌then◌else◌, bit_or,
}
use qmsp.Runner.{
  Entry, Resource, library, registration, configuration, listener, set_up, set_up_failed,
  taken_down,
}

-- Whether the calls succeed.
pub record SetupAnswer : Type 0 where
  pub library_opens : Bool
  pub registration_opens : Bool
  pub configuration_opens : Bool
  pub credential_loads : Bool
  pub listener_opens : Bool
  pub listener_starts : Bool

unfoldable pub tried : Resource → Bool → Entry
tried r true = set_up r
tried r false = set_up_failed r

-- A configuration is opened, and credentials are loaded into it. The result tells whether both succeed.
-- The configuration that is opened stays when its credentials are not loaded.
unfoldable pub load_configuration : SetupAnswer → List Entry × Bool
load_configuration ans = (
  tried configuration ans.configuration_opens ∷ [],
  ans.configuration_opens && ans.credential_loads,
)

-- QUIC_CREDENTIAL_FLAG_CLIENT, QUIC_CREDENTIAL_FLAG_NO_CERTIFICATE_VALIDATION and
-- QUIC_CREDENTIAL_FLAG_SET_CA_CERTIFICATE_FILE.
abbrev pub client_flag : ℕ
client_flag = 1

abbrev pub no_validation_flag : ℕ
no_validation_flag = 4

abbrev pub ca_file_flag : ℕ
ca_file_flag = 1048576

-- The flags and the file of the client's credentials.
unfoldable pub client_credentials : Bool → Option (List ℕ) → ℕ × Option (List ℕ)
client_credentials unsecure cert =
    let flags = if unsecure then bit_or client_flag no_validation_flag else client_flag in
    elim cert [
      | none ↦ (flags, none)
      | some file ↦ (bit_or (bit_or flags ca_file_flag) no_validation_flag, some file)
    ]

-- The listener is closed when Enter is pressed, or at once if it does not start.
unfoldable pub run_server : SetupAnswer → List Entry
run_server ans =
    (load_configuration ans).0
    ++ (if (load_configuration ans).1
        then tried listener ans.listener_opens
          ∷ (if ans.listener_opens then taken_down listener ∷ [] else [])
        else [])

-- The entries of the client's connection are given.
unfoldable pub client_side : SetupAnswer → List Entry → List Entry
client_side ans session =
    (load_configuration ans).0 ++ (if (load_configuration ans).1 then session else [])

-- What the flags on the command line ask for.
unfoldable pub chosen_side : (List ℕ → Bool) → SetupAnswer → List Entry → List Entry
chosen_side get_flag ans session =
    if get_flag (b'h' ∷ b'e' ∷ b'l' ∷ b'p' ∷ []) || get_flag (b'?' ∷ [])
    then []
    else if get_flag (b'c' ∷ b'l' ∷ b'i' ∷ b'e' ∷ b'n' ∷ b't' ∷ [])
    then client_side ans session
    else if get_flag (b's' ∷ b'e' ∷ b'r' ∷ b'v' ∷ b'e' ∷ b'r' ∷ [])
    then run_server ans
    else []

-- Whether the global handle of the configuration is set behind these calls.
unfoldable pub has_configuration : List Entry → Bool
has_configuration [] = false
has_configuration (set_up configuration ∷ es) = true
has_configuration (e ∷ es) = has_configuration es

unfoldable pub closing_configuration : List Entry → List Entry
closing_configuration es = if has_configuration es then taken_down configuration ∷ [] else []

-- The calls of the whole program, and whether its status is success: what a side returns is not asked.
unfoldable pub main : (List ℕ → Bool) → SetupAnswer → List Entry → List Entry × Bool
main get_flag ans session =
    if not ans.library_opens
    then (set_up_failed library ∷ [], false)
    else if not ans.registration_opens
    then (set_up library ∷ set_up_failed registration ∷ taken_down library ∷ [], false)
    else (
      (set_up library ∷ set_up registration ∷ chosen_side get_flag ans session)
          ++ (closing_configuration (chosen_side get_flag ans session)
              ++ (taken_down registration ∷ taken_down library ∷ [])),
      true,
    )
