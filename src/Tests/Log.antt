-- ===== src/Tests/Log.antt =====
-- Runs of the audit log, on a platform that writes four kinds of event as one letter each.
use fips_dropbox.Prelude.{
  ℕ, zero, ◌≡◌, ◌≢◌, refl, sym, subst, Bool, true, false, ◌&&◌, Option, none, some, [], ◌∷◌, codes,
  list_eq, eq_of_list_eq, arith, if◌then◌else◌,
}
use mathlib.Core.Option
use fips_dropbox.Text
use fips_dropbox.Text.{Text, Bytes}
use fips_dropbox.Platform.{Platform}
use fips_dropbox.Event.{Event, Value, Outcome, null, success, Actor}
use fips_dropbox.Audit
use fips_dropbox.Audit.{genesis_hash}
use fips_dropbox.Audit.Lines
use fips_dropbox.Audit.Tamper.{IsJson}
use fips_dropbox.Tests.Sample.{platform_of}

abbrev nobody : Actor
nobody = record { user_id = none; ip = []; ua = [] }

abbrev pub plain : Text → Text → Event
plain p h = record {
  ts = 0;
  event = [];
  actor = nobody;
  target = null;
  outcome = success;
  meta = null;
  prev_hash = p;
  hash = h;
}

abbrev pick : Bool → Bool → Bool → Bool → Option Text
pick true _ _ _ = some (codes "A")
pick false true _ _ = some (codes "B")
pick false false true _ = some (codes "C")
pick false false false true = some (codes "D")
pick false false false false = none

abbrev is_plain : Text → Text → Text → Text → Bool
is_plain p h p' h' = list_eq p p' && list_eq h h'

abbrev name_of : Text → Text → Option Text
name_of p h =
    pick (is_plain p h genesis_hash []) (is_plain p h genesis_hash (codes "h"))
      (is_plain p h (codes "h") []) (is_plain p h (codes "h") (codes "h"))

abbrev encode :
    ℕ → Text → Option Text → Text → Text → Value → Outcome → Value → Text → Text → Option Text
encode zero [] none [] [] null success null p h = name_of p h
encode _ _ _ _ _ _ _ _ _ _ = none

abbrev to_json : Event → Option Text
to_json ev =
    encode ev.ts ev.event ev.actor.user_id ev.actor.ip ev.actor.ua ev.target ev.outcome ev.meta
      ev.prev_hash ev.hash

abbrev from_json : Text → Option Event
from_json line =
    if list_eq line (codes "A")
    then some (plain genesis_hash [])
    else if list_eq line (codes "B")
    then some (plain genesis_hash (codes "h"))
    else if list_eq line (codes "C")
    then some (plain (codes "h") [])
    else if list_eq line (codes "D")
    then some (plain (codes "h") (codes "h"))
    else none

abbrev pub os_with : (ℕ → Option ℕ) → Platform
os_with faults = platform_of faults (λ raw. codes "h") to_json from_json

plain_of_encode :
    (ts : ℕ) (event : Text) (user_id : Option Text) (ip ua : Text) (target : Value)
    (outcome : Outcome) (meta : Value) (p h : Text) {line : Text}
    → encode ts event user_id ip ua target outcome meta p h ≡ some line
    → (record {
      ts = ts;
      event = event;
      actor = record { user_id = user_id; ip = ip; ua = ua };
      target = target;
      outcome = outcome;
      meta = meta;
      prev_hash = p;
      hash = h;
    }
        ≡ plain p h)
      × (name_of p h ≡ some line)
plain_of_encode zero [] none [] [] null success null p h e = (refl, e)
plain_of_encode _ _ _ _ _ _ _ _ p h e = absurd (cc)

-- A line, and the event that it is read back as.
record Reads (line : Text) (ev : Event) : Type 0 where
  pub back : from_json line ≡ some ev
  pub one_line : Lines.IsOneLine line
  pub not_blank : Audit.is_blank line ≡ false

plain_eq : (p h p' h' : Text) → is_plain p h p' h' ≡ true → plain p' h' ≡ plain p h
plain_eq p h p' h' e =
    let one : p ≡ p' = eq_of_list_eq p p' (ground arith) in
    let two : h ≡ h' = eq_of_list_eq h h' (ground arith) in cc

letter-Reads :
    (c : ℕ) (ev : Event)
    → from_json (c ∷ []) ≡ some ev
    → (c ≢ b'\n') × (c ≢ b'\r')
    → Audit.is_blank (c ∷ []) ≡ false
    → Reads (c ∷ []) ev
letter-Reads c ev back one visible = record {
  back = back;
  one_line = (one, tt);
  not_blank = visible;
}

Reads-as :
    (p h p' h' : Text) (letter line : Text)
    → is_plain p h p' h' ≡ true
    → some letter ≡ some line
    → Reads letter (plain p' h')
    → Reads line (plain p h)
Reads-as p h p' h' letter line e l r =
    subst (λ s. Reads s (plain p h)) (Option.some-injective letter line l)
      (subst (λ ev. Reads letter ev) (plain_eq p h p' h' e) r)

picked :
    (p h : Text) (a b c d : Bool) {line : Text}
    → is_plain p h genesis_hash [] ≡ a
    → is_plain p h genesis_hash (codes "h") ≡ b
    → is_plain p h (codes "h") [] ≡ c
    → is_plain p h (codes "h") (codes "h") ≡ d
    → pick a b c d ≡ some line
    → Reads line (plain p h)
unfolding list_eq Audit.is_blank Text.trim
picked p h true b c d {line} ea eb ec ed e =
    Reads-as p h genesis_hash [] (codes "A") line ea e
      (letter-Reads b'A' _ refl ((λ q. omega (arith, q)), (λ q. omega (arith, q))) refl)
picked p h false true c d {line} ea eb ec ed e =
    Reads-as p h genesis_hash (codes "h") (codes "B") line eb e
      (letter-Reads b'B' _ refl ((λ q. omega (arith, q)), (λ q. omega (arith, q))) refl)
picked p h false false true d {line} ea eb ec ed e =
    Reads-as p h (codes "h") [] (codes "C") line ec e
      (letter-Reads b'C' _ refl ((λ q. omega (arith, q)), (λ q. omega (arith, q))) refl)
picked p h false false false true {line} ea eb ec ed e =
    Reads-as p h (codes "h") (codes "h") (codes "D") line ed e
      (letter-Reads b'D' _ refl ((λ q. omega (arith, q)), (λ q. omega (arith, q))) refl)
picked p h false false false false ea eb ec ed e = absurd (cc)

reads : (ev : Event) (line : Text) → to_json ev ≡ some line → Reads line ev
reads ev line e =
    let (same, named) =
      plain_of_encode ev.ts ev.event ev.actor.user_id ev.actor.ip ev.actor.ua ev.target ev.outcome
        ev.meta ev.prev_hash ev.hash e in
    subst (λ x. Reads line x) (sym same)
      (picked ev.prev_hash ev.hash _ _ _ _ refl refl refl refl named)

pub json : (faults : ℕ → Option ℕ) → IsJson (os_with faults)
json faults = record {
  read_back = λ ev line e. (reads ev line e).back;
  one_line = λ ev line e. (reads ev line e).one_line;
  not_blank = λ ev line e. (reads ev line e).not_blank;
}
