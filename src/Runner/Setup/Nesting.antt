-- ===== src/Runner/Setup/Nesting.antt =====
-- OriginalLinuxCode/QMSP_Runner.c: what is set up is taken down in the reverse order.
use mathlib.Core.Option.{some-injective}
use qmsp.Base.{
  ℕ, ◌≡◌, refl, sym, ap, ◌∙◌, arith, List, [], ◌∷◌, ◌++◌, Option, none, some, inl, inr, ◌>>=◌, Bool,
  true, false, ◌&&◌, ◌||◌, not, if◌then◌else◌, All, Option-cases, none-some,
}
use qmsp.Runner.{
  Entry, Resource, library, registration, configuration, listener, set_up, set_up_failed,
  taken_down,
}
use qmsp.Runner.Setup.{
  SetupAnswer, tried, load_configuration, run_server, client_side, chosen_side, has_configuration,
  closing_configuration, main,
}

unfoldable pub same_resource : Resource → Resource → Bool
same_resource library library = true
same_resource registration registration = true
same_resource configuration configuration = true
same_resource listener listener = true
same_resource r s = false

-- What must be there for a resource.
unfoldable pub parent : Resource → Option Resource
parent library = none
parent registration = some library
parent configuration = some registration
parent listener = some registration

unfoldable pub is_there : Resource → List Resource → Bool
is_there r [] = false
is_there r (s ∷ stack) = same_resource r s || is_there r stack

unfoldable pub parent_there : Resource → List Resource → Bool
parent_there r stack = elim (parent r) [ none ↦ true | some q ↦ is_there q stack ]

-- The resources that are there, the last one first. It is `none` where one is set up twice or without
-- its parent, or where one is taken down that is not the last.
unfoldable pub nested_step : List Resource → Entry → Option (List Resource)
nested_step stack (set_up r) =
    if parent_there r stack && not (is_there r stack) then some (r ∷ stack) else none
nested_step stack (set_up_failed r) = if parent_there r stack then some stack else none
nested_step [] (taken_down r) = none
nested_step (s ∷ stack) (taken_down r) = if same_resource r s then some stack else none
nested_step stack e = some stack

unfoldable pub nested : List Resource → List Entry → Option (List Resource)
nested stack [] = some stack
nested stack (e ∷ es) = nested_step stack e >>= λ stack'. nested stack' es

-- An entry about no resource.
unfoldable pub IsCall : Entry → Type 0
IsCall (set_up r) = ⊥
IsCall (set_up_failed r) = ⊥
IsCall (taken_down r) = ⊥
IsCall e = Unit

nested-append :
    (stack stack' : List Resource) (es fs : List Entry)
    → nested stack es ≡ some stack'
    → nested stack (es ++ fs) ≡ nested stack' fs
unfolding nested
nested-append stack stack' [] fs h = ap (λ s. nested s fs) (some-injective stack stack' h)
nested-append stack stack' (e ∷ es) fs h = elim (Option-cases (nested_step stack e)) [
  | inl stops ↦ absurd (none-some stack' (sym (ap (λ o. o >>= λ s. nested s es) stops) ∙ h))
  | inr (s, goes) ↦
      rw goes (nested-append s stack' es fs (sym (ap (λ o. o >>= λ s. nested s es) goes) ∙ h))
]

call-step : (stack : List Resource) (e : Entry) → IsCall e → nested_step stack e ≡ some stack
unfolding nested_step IsCall
call-step stack (set_up r) h = absurd h
call-step stack (set_up_failed r) h = absurd h
call-step stack (taken_down r) h = absurd h
call-step stack e h = refl

nested-calls :
    (stack : List Resource) (es : List Entry) → All IsCall es → nested stack es ≡ some stack
unfolding nested
nested-calls stack [] h = refl
nested-calls stack (e ∷ es) (h, hs) = rw (call-step stack e h) (nested-calls stack es hs)

calls_no_configuration : (es : List Entry) → All IsCall es → has_configuration es ≡ false
unfolding has_configuration
calls_no_configuration [] h = refl
calls_no_configuration (set_up r ∷ es) (h, hs) = absurd (unfold IsCall in h)
calls_no_configuration (e ∷ es) (h, hs) = calls_no_configuration es hs

-- A side leaves the configuration, if it was opened, and nothing else.
abbrev Leaves : List Entry → Type 0
Leaves es =
    nested (registration ∷ library ∷ []) es
    ≡ some (
        if has_configuration es
        then configuration ∷ registration ∷ library ∷ []
        else registration ∷ library ∷ [])

-- The answers of MsQuic, field by field.
abbrev answers : Bool → Bool → Bool → Bool → Bool → Bool → SetupAnswer
answers l r conf cred lo ls = record {
  library_opens = l;
  registration_opens = r;
  configuration_opens = conf;
  credential_loads = cred;
  listener_opens = lo;
  listener_starts = ls;
}

loaded :
    (l r conf cred lo ls : Bool) (es : List Entry)
    → nested (configuration ∷ registration ∷ library ∷ []) es
      ≡ some (configuration ∷ registration ∷ library ∷ [])
    → has_configuration es ≡ false
    → Leaves (
        (load_configuration (answers l r conf cred lo ls)).0
        ++ (if (load_configuration (answers l r conf cred lo ls)).1 then es else []))
unfolding load_configuration nested has_configuration tried nested_step parent_there parent is_there
    same_resource
loaded l r true true lo ls es h without = h
loaded l r true false lo ls es h without = refl
loaded l r false true lo ls es h without = refl
loaded l r false false lo ls es h without = refl

listening :
    (opens : Bool)
    → (nested
          (configuration ∷ registration ∷ library ∷ [])
          (tried listener opens ∷ (if opens then taken_down listener ∷ [] else []))
        ≡ some (configuration ∷ registration ∷ library ∷ []))
      × (has_configuration (tried listener opens ∷ (if opens then taken_down listener ∷ [] else []))
          ≡ false)
unfolding nested has_configuration tried nested_step parent_there parent is_there same_resource
listening true = (refl, refl)
listening false = (refl, refl)

server-Leaves : (l r conf cred lo ls : Bool) → Leaves (run_server (answers l r conf cred lo ls))
unfolding run_server
server-Leaves l r conf cred lo ls =
    loaded l r conf cred lo ls (tried listener lo ∷ (if lo then taken_down listener ∷ [] else []))
      (listening lo).0 (listening lo).1

client-Leaves :
    (l r conf cred lo ls : Bool) (session : List Entry)
    → All IsCall session
    → Leaves (client_side (answers l r conf cred lo ls) session)
unfolding client_side
client-Leaves l r conf cred lo ls session calls =
    loaded l r conf cred lo ls session
      (nested-calls (configuration ∷ registration ∷ library ∷ []) session calls)
      (calls_no_configuration session calls)

nothing-Leaves : Leaves []
unfolding nested has_configuration
nothing-Leaves = refl

Leaves-if : (b : Bool) (es fs : List Entry) → Leaves es → Leaves fs → Leaves (if b then es else fs)
Leaves-if true es fs h k = h
Leaves-if false es fs h k = k

chosen-Leaves :
    (get_flag : List ℕ → Bool) (l r conf cred lo ls : Bool) (session : List Entry)
    → All IsCall session
    → Leaves (chosen_side get_flag (answers l r conf cred lo ls) session)
unfolding chosen_side
chosen-Leaves get_flag l r conf cred lo ls session calls = Leaves-if _ _ _ nothing-Leaves (
    Leaves-if _ _ _ (client-Leaves l r conf cred lo ls session calls)
      (Leaves-if _ _ _ (server-Leaves l r conf cred lo ls) nothing-Leaves))

abbrev rest : List Resource
rest = registration ∷ library ∷ []

abbrev last_calls : List Entry
last_calls = taken_down registration ∷ taken_down library ∷ []

closing :
    (b : Bool)
    → nested
        (if b then configuration ∷ rest else rest)
        ((if b then taken_down configuration ∷ [] else []) ++ last_calls)
      ≡ some []
unfolding nested nested_step same_resource
closing true = refl
closing false = refl

-- What is behind a side takes down what it leaves.
closed_after :
    (es : List Entry)
    → Leaves es
    → nested rest (es ++ (closing_configuration es ++ last_calls)) ≡ some []
unfolding closing_configuration
closed_after es h =
    nested-append rest (if has_configuration es then configuration ∷ rest else rest) es
      (closing_configuration es ++ last_calls) h
    ∙ closing (has_configuration es)

opened_before :
    (es : List Entry) → nested [] (set_up library ∷ set_up registration ∷ es) ≡ nested rest es
unfolding nested nested_step parent_there parent is_there same_resource
opened_before es = refl

failed_before :
    (nested [] (set_up_failed library ∷ []) ≡ some [])
    × (nested [] (set_up library ∷ set_up_failed registration ∷ taken_down library ∷ []) ≡ some [])
unfolding nested nested_step parent_there parent is_there same_resource
failed_before = (refl, refl)

nested-main :
    (get_flag : List ℕ → Bool) (l r conf cred lo ls : Bool) (session : List Entry)
    → All IsCall session
    → nested [] (main get_flag (answers l r conf cred lo ls) session).0 ≡ some []
unfolding main
nested-main get_flag true true conf cred lo ls session calls =
    let side = chosen_side get_flag (answers true true conf cred lo ls) session in
    opened_before (side ++ (closing_configuration side ++ last_calls))
    ∙ closed_after side (chosen-Leaves get_flag true true conf cred lo ls session calls)
nested-main get_flag true false conf cred lo ls session calls = failed_before.1
nested-main get_flag false r conf cred lo ls session calls = failed_before.0

-- Whatever MsQuic answers and the flags ask for, the program sets up each of the library, the
-- registration, the configuration and the listener at most once and behind what it belongs to, and
-- takes down all that it set up, in the reverse order. This holds whatever else the client calls.
-- The status is success exactly if the library and the registration open.
pub main_lem :
    (get_flag : List ℕ → Bool) (ans : SetupAnswer) (session : List Entry)
    → All IsCall session
    → (nested [] (main get_flag ans session).0 ≡ some [])
      × ((main get_flag ans session).1 ≡ ans.library_opens && ans.registration_opens)
unfolding main
main_lem get_flag ans session calls = (
  nested-main get_flag ans.library_opens ans.registration_opens ans.configuration_opens
      ans.credential_loads ans.listener_opens ans.listener_starts session calls,
  ground arith,
)
