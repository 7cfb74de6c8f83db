-- ===== src/Startup/Args.antt =====
-- The arguments: `parse_args` of crates/app/src/init_cmd.rs.
use mathlib.Core.Option
use fips_dropbox.Prelude.{
  ℕ, zero, suc, ◌≤◌, ◌<◌, ◌≡◌, ◌≢◌, refl, sym, ap, ◌∙◌, Option, none, some, List, [], ◌∷◌, ◌++◌,
  codes, arith, length, drop, get_elem?, ltb, list_eq, eq_of_list_eq, subst, ◌↔◌, lt→ltb,
  if◌then◌else◌, Bool-cases, inl, inr,
}
use fips_dropbox.Text.{Text}
use fips_dropbox.Result
use fips_dropbox.Result.{Result, ok, err, panic}
use fips_dropbox.Startup.{AppError, message}

-- What the loop collects.
pub record Flags : Type 0 where
  pub email : Option Text
  pub password : Option Text

abbrev pub no_flags : Flags
no_flags = record { email = none; password = none }

abbrev pub required : Option Text → Text → Result AppError Text
required none what = err (message what)
required (some value) what = ok value

-- One round: the argument at the index and the one after it. An index out of range panics.
unfoldable pub one_flag : Option Text → Option Text → Flags → Result AppError Flags
one_flag none next flags = panic
one_flag (some arg) next flags =
    if list_eq arg (codes "--admin-email")
    then Result.◌>>=◌ (required next (codes "--admin-email requires a value"))
        (λ value. ok (record flags { email = some value }))
    else if list_eq arg (codes "--admin-password")
    then Result.◌>>=◌ (required next (codes "--admin-password requires a value"))
        (λ value. ok (record flags { password = some value }))
    else err (message (codes "unknown flag: " ++ arg))

-- The loop over the index, on fuel: `none` is fuel that ran out.
unfoldable pub parse_loop : List Text → ℕ → ℕ → Flags → Option (Result AppError Flags)
unfolding one_flag
parse_loop args zero i flags = if ltb i (length args) then none else some (ok flags)
parse_loop args (suc fuel) i flags =
    if ltb i (length args)
    then elim (one_flag (get_elem? args i) (get_elem? args (suc i)) flags) [
      | ok next ↦ parse_loop args fuel (suc (suc i)) next
      | err e ↦ some (err e)
      | panic ↦ some panic
    ]
    else some (ok flags)

abbrev pub email_of : Flags → Result AppError (Text × Option Text)
email_of flags =
    Result.◌>>=◌ (required flags.email (codes "--admin-email is required"))
      λ email. ok (email, flags.password)

abbrev pub checked : Option (Result AppError Flags) → Option (Result AppError (Text × Option Text))
checked none = none
checked (some r) = some (Result.◌>>=◌ r email_of)

unfoldable pub parse_args : List Text → Option (Result AppError (Text × Option Text))
unfolding parse_loop
parse_args args = checked (parse_loop args (length args) 0 no_flags)

-- The flags that a list of arguments sets, two by two; the last of a kind counts.
pub data Sets : List Text → Flags → Flags → Type 0 where
  no_more : {flags : Flags} → Sets [] flags flags
  email_too :
      {flags after : Flags} {args : List Text} (value : Text)
      → Sets args (record { email = some value; password = flags.password }) after
      → Sets (codes "--admin-email" ∷ value ∷ args) flags after
  password_too :
      {flags after : Flags} {args : List Text} (value : Text)
      → Sets args (record { email = flags.email; password = some value }) after
      → Sets (codes "--admin-password" ∷ value ∷ args) flags after

-- What the loop makes of the arguments that are left.
unfoldable pub flags_of : List Text → Flags → Result AppError Flags
unfolding one_flag
flags_of [] flags = ok flags
flags_of (arg ∷ []) flags = one_flag (some arg) none flags
flags_of (arg ∷ next ∷ args) flags = elim (one_flag (some arg) (some next) flags) [
  | ok more ↦ flags_of args more
  | err e ↦ err e
  | panic ↦ panic
]

drop-suc :
    (i : ℕ) (args : List Text) {a : Text} {rest : List Text}
    → drop i args ≡ a ∷ rest
    → drop (suc i) args ≡ rest
drop-suc zero [] h = cc
drop-suc zero (x ∷ args) h = ground arith
drop-suc (suc i) [] h = cc
drop-suc (suc i) (x ∷ args) {a} {rest} h = drop-suc i args {a = a} {rest = rest} h

get_elem?-drop :
    (i : ℕ) (args : List Text) {a : Text} {rest : List Text}
    → drop i args ≡ a ∷ rest
    → (get_elem? args i ≡ some a) × (i < length args)
get_elem?-drop zero [] h = cc
get_elem?-drop zero (x ∷ args) h = (ground arith, omega arith)
get_elem?-drop (suc i) [] h = cc
get_elem?-drop (suc i) (x ∷ args) {a} {rest} h =
    let (found, low) = get_elem?-drop i args {a = a} {rest = rest} h in (found, omega (arith, low))

past_end :
    (i : ℕ) (args : List Text) → drop i args ≡ [] → (length args ≤ i) × (get_elem? args i ≡ none)
past_end zero [] h = (omega arith, refl)
past_end zero (x ∷ args) h = cc
past_end (suc i) [] h = (omega arith, refl)
past_end (suc i) (x ∷ args) h =
    let (low, absent) = past_end i args h in (omega (arith, low), absent)

-- A flag without a value is refused.
one_flag-none :
    (arg : Text) (flags : Flags) (k : Flags → Option (Result AppError Flags))
    → (elim (one_flag (some arg) none flags) [
      | ok next ↦ k next
      | err e ↦ some (err e)
      | panic ↦ some panic
    ])
      ≡ some (one_flag (some arg) none flags)
unfolding one_flag
one_flag-none arg flags k = ground arith

rounds_agree :
    (r : Result AppError Flags) (k : Flags → Option (Result AppError Flags))
    → (m : Flags → Result AppError Flags) → ((next : Flags) → k next ≡ some (m next))
    → (elim r [ ok next ↦ k next | err e ↦ some (err e) | panic ↦ some panic ])
      ≡ some (elim r [ ok next ↦ m next | err e ↦ err e | panic ↦ panic ])
rounds_agree (ok next) k m same = same next
rounds_agree (err e) k m same = refl
rounds_agree panic k m same = refl

-- Fuel for the arguments that are left is enough.
parse_loop-flags_of :
    (args : List Text) (fuel i : ℕ) (flags : Flags) (left : List Text)
    → drop i args ≡ left
    → length left ≤ fuel
    → parse_loop args fuel i flags ≡ some (flags_of left flags)
unfolding parse_loop flags_of
parse_loop-flags_of args zero i flags [] e h = ground (arith, past_end i args e)
parse_loop-flags_of args zero i flags (a ∷ left) e h = absurd (omega arith)
parse_loop-flags_of args (suc fuel) i flags [] e h = ground (arith, past_end i args e)
parse_loop-flags_of args (suc fuel) i flags (a ∷ []) e h =
    let (found, low) = get_elem?-drop i args e in
    let (high, absent) = past_end (suc i) args (drop-suc i args e) in
    rw (lt→ltb i (length args) low, found, absent) (one_flag-none a flags _)
parse_loop-flags_of args (suc fuel) i flags (a ∷ b ∷ left) e h =
    let (found, low) = get_elem?-drop i args e in
    let (next, lower) = get_elem?-drop (suc i) args (drop-suc i args e) in
    rw (lt→ltb i (length args) low, found, next)
      (rounds_agree _ _ (flags_of left) λ more.
        parse_loop-flags_of args fuel (suc (suc i)) more left
          (drop-suc (suc i) args (drop-suc i args e)) (omega arith))

Sets-flags_of :
    (args : List Text) (flags after : Flags)
    → Sets args flags after
    → flags_of args flags ≡ ok after
unfolding flags_of one_flag list_eq
Sets-flags_of _ flags _ no_more = refl
Sets-flags_of _ flags after (email_too {args = args} value sets) = Sets-flags_of args _ after sets
Sets-flags_of _ flags after (password_too {args = args} value sets) =
    Sets-flags_of args _ after sets

flags_of-Sets :
    (args : List Text) (flags after : Flags)
    → flags_of args flags ≡ ok after
    → Sets args flags after
unfolding flags_of one_flag
flags_of-Sets [] flags after h = subst (Sets [] flags) (ground arith) no_more
flags_of-Sets (arg ∷ []) flags after h = absurd (ground arith)
flags_of-Sets (arg ∷ next ∷ args) flags after h =
    elim (Bool-cases (list_eq arg (codes "--admin-email"))) [
      | inl e ↦
          subst (λ a. Sets (a ∷ next ∷ args) flags after)
            (sym (eq_of_list_eq arg (codes "--admin-email") e))
            (email_too next (flags_of-Sets args _ after (ground arith)))
      | inr other ↦ elim (Bool-cases (list_eq arg (codes "--admin-password"))) [
        | inl e ↦
            subst (λ a. Sets (a ∷ next ∷ args) flags after)
              (sym (eq_of_list_eq arg (codes "--admin-password") e))
              (password_too next (flags_of-Sets args _ after (ground arith)))
        | inr neither ↦ absurd (ground arith)
      ]
    ]

-- With the fuel of its arguments `parse_args` ends: it does not run out of fuel, and answers what
-- its arguments set, read two by two.
pub parse_args-ends :
    (args : List Text) → parse_args args ≡ some (Result.◌>>=◌ (flags_of args no_flags) email_of)
unfolding parse_args
parse_args-ends args =
    ap checked (parse_loop-flags_of args (length args) 0 no_flags args refl (omega arith))

-- No argument is read past the end.
flags_of-total : (args : List Text) (flags : Flags) → flags_of args flags ≢ panic
unfolding flags_of one_flag
flags_of-total [] flags = λ h. cc
flags_of-total (arg ∷ []) flags = λ h. ground arith
flags_of-total (arg ∷ next ∷ args) flags = λ h. ground (
  arith,
  flags_of-total args (record flags { email = some next }),
  flags_of-total args (record flags { password = some next }),
)

email_of-total : (r : Result AppError Flags) → r ≢ panic → Result.◌>>=◌ r email_of ≢ panic
email_of-total (ok flags) fine = λ h. ground arith
email_of-total (err e) fine = λ h. cc
email_of-total panic fine = λ h. fine refl

-- On any arguments `parse_args` ends with an answer or an error: the fuel, their number, is enough,
-- and no index is out of range. It accepts exactly the arguments that are pairs of a flag,
-- `--admin-email` or `--admin-password`, and its value, with an address among them, and answers the
-- last value of each flag.
pub parse_args_iff :
    (args : List Text) (email : Text) (password : Option Text)
    → ((r : Result AppError (Text × Option Text)) × (parse_args args ≡ some r) × (r ≢ panic))
      × ((parse_args args ≡ some (ok (email, password)))
          ↔ Sets args no_flags (record { email = some email; password = password }))
parse_args_iff args email password = (
  (_, parse_args-ends args, email_of-total _ (flags_of-total args no_flags)),
  (
    λ h.
        flags_of-Sets args no_flags _
          (flags_set _ (Option.some-injective _ _ (sym (parse_args-ends args) ∙ h))),
    λ sets.
        parse_args-ends args
        ∙ ap (λ r. some (Result.◌>>=◌ r email_of)) (Sets-flags_of args no_flags _ sets),
  ),
)
  where
    flags_set :
        (r : Result AppError Flags)
        → Result.◌>>=◌ r email_of ≡ ok (email, password)
        → r ≡ ok (record { email = some email; password = password })
    flags_set (ok flags) h = ground arith
    flags_set (err e) h = cc
    flags_set panic h = cc
