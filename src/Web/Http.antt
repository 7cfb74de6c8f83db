-- ===== src/Web/Http.antt =====
-- What the handlers of crates/web take from axum and other crates, and what they answer.
use fips_dropbox.Prelude.{ℕ, Bool, Option, if◌then◌else◌}
use fips_dropbox.Text.{Text, Bytes}
use fips_dropbox.Time.{Instant}
use fips_dropbox.Result.{Result, ok, err, panic}
use fips_dropbox.Effect.{M, pure, fail}
use fips_dropbox.Event.{Value}
use fips_dropbox.World.{World}
use fips_dropbox.Web.Pages.{Page}

-- The other crates: `time`, serde_json, uuid, askama and http, and the case mapping of Unicode.
pub record Http : Type 0 where
  pub rfc3339 : Instant → Option Text
  pub format_minutes : Instant → Option Text
  pub format_stamp : Instant → Option Text
  pub json_to_string : Value → Text
  pub uuid_parse : Text → Option Bytes
  pub to_lowercase : Text → Text
  pub renders : Page → Bool
  -- A text that a header can hold, by `str::parse` and by `TryFrom<String>`.
  pub is_header_text : Text → Bool
  pub is_header_value : Text → Bool

-- `headers.get(name)` with `to_str().ok()`: the first header of that name, if it is ASCII.
abbrev pub Headers : Type 0
Headers = Text → Option Text

abbrev pub Status : Type 0
Status = ℕ

pub data Response : Type 0 where
  page : Page → Response
  text : Text → Response
  redirect : Text → Response
  redirect_with_cookie : Text → Text → Response
  attachment : (content_type disposition : Text) → Bytes → Response
  created : Value → Response
  status : Status → Response
  failed : Status → (error : Text) → Response

-- What a handler does: it answers, or fails with a status that is the answer.
abbrev pub Handler : Type 0
Handler = M World Status Response

module _ {E A B F : Type 0} where
  abbrev pub on_result : Result E A → (A → M World F B) → (E → M World F B) → M World F B
  on_result (ok a) f g w = f a w
  on_result (err e) f g w = g e w
  on_result panic f g w = (panic, w)

  -- `match app.call(…).await { Ok(a) => …, Err(e) => … }`
  unfoldable pub respond : M World E A → (A → M World F B) → (E → M World F B) → M World F B
  respond call f g w = on_result (call w).0 f g (call w).1

module _ ⦃http : Http⦄ where
  -- `render`
  unfoldable pub render : Page → Handler
  render p = if http.renders p then pure (page p) else fail 500

  -- The response of a status, two headers and a body; axum answers 500 to a header it cannot hold.
  unfoldable pub attach : Text → Text → Bytes → Response
  attach content_type disposition body =
      if http.is_header_value disposition
      then attachment content_type disposition body
      else status 500
