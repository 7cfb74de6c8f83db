-- ===== src/Web/Router/History.antt =====
-- Any sequence of requests over HTTP, and the ledger of links that the shares stand for.
use fips_dropbox.Prelude.{◌≡◌, true, some, List, [], ◌∷◌}
use fips_dropbox.Platform.{Platform}
use fips_dropbox.Text.{Bytes}
use fips_dropbox.World.{World}
use fips_dropbox.Storage.Stable.Kept.{IsKept}
use fips_dropbox.Storage.Ledger.{Reach, here, ledger_of, Link, Reach-withdrawn}
use fips_dropbox.Storage.Ledger.Requests.{clock, IsReached-IsKept}
use fips_dropbox.Service.{App}
use fips_dropbox.Web.Http.{Http, Headers}
use fips_dropbox.Web.Router.{Route, handle}
use fips_dropbox.Web.Router.Keeping.{handle-Keeps}

module _ ⦃os : Platform⦄ ⦃http : Http⦄ (app : App) where
  -- The world after requests, each with its headers.
  unfoldable pub browse : World → List (Headers × Route) → World
  browse w [] = w
  browse w ((headers, route) ∷ requests) = browse (handle app headers route w).1 requests

  -- A property that the requests keep holds after any requests over HTTP.
  pub browse-Keeps :
      {I : World → Type 0}
      → IsKept I
      → (w : World) (requests : List (Headers × Route)) → I w
      → I (browse w requests)
  unfolding browse
  browse-Keeps kept w [] h = h
  browse-Keeps kept w ((headers, route) ∷ requests) h =
      browse-Keeps kept (handle app headers route w).1 requests
        ((handle-Keeps kept app headers route).at w h)

  -- Whatever requests arrive over HTTP, with whatever headers, forms and faults of the platform, the
  -- shares end as a ledger of links that issuing, following and withdrawing links lead to, in the
  -- order of the calls: each link that is followed is below its limit, and not past its expiry by
  -- what the clock reads at a call since the requests began.
  pub browse-refines :
      (w : World) (requests : List (Headers × Route))
      → Reach clock
          (ledger_of w.db.shares)
          w.calls
          (ledger_of (browse w requests).db.shares)
          (browse w requests).calls
  browse-refines w requests = (browse-Keeps IsReached-IsKept w requests (record { at = here })).at

  -- Once the share of an identifier is revoked, no request over HTTP changes the link that it stands
  -- for: it stays revoked, with its limit, its expiry and the downloads counted until then.
  pub browse-withdrawn :
      (w : World) (requests : List (Headers × Route)) (id : Bytes) (l : Link)
      → l.withdrawn ≡ true
      → ledger_of w.db.shares id ≡ some l
      → ledger_of (browse w requests).db.shares id ≡ some l
  browse-withdrawn w requests id l gone there =
      Reach-withdrawn _ _ _ _ _ id l (browse-refines w requests) gone there
