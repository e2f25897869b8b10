-- ===== src/Http/Respond/Contract.antt =====
-- Which requests `route` gives the page, and what that answer is.
use scratchpad.Common.{◌≡◌, ◌≢◌, refl, ap, ◌↔◌, ◌⊎◌, arith, none, Bytes, codes, bytes_eq_iff}
use scratchpad.Http.{get, head, other, Request, Response, root_path, index_path}
use scratchpad.Http.Respond.{status_reason, error_response, route}

-- The requests that may have the page: HTTP/1.x, by GET or HEAD, for one of its two paths
abbrev pub AsksPage : Request → Type 0
AsksPage req =
    (req.major ≡ 1)
    × (req.method ≢ other)
    × ((req.path ≡ codes "/") ⊎ (req.path ≡ codes "/index.html"))

-- The page is the answer, as a 200 with no list of methods, to exactly the HTTP/1.x requests for `/` or
-- `/index.html` by GET or HEAD, and no other request gets a 200.
pub route-ok_iff :
    (req : Request) (page : Bytes)
    → (((route req page).status ≡ 200) ↔ AsksPage req)
      × ((route req page ≡ record { status = 200; reason = codes "OK"; body = page; allow = none })
          ↔ AsksPage req)
unfolding route error_response status_reason
route-ok_iff req page =
    (status_iff, (λ e. status_iff.0 (ap (λ (r : Response). r.status) e), served))
  where
    status_iff : ((route req page).status ≡ 200) ↔ AsksPage req
    status_iff = ground (arith, bytes_eq_iff req.path root_path, bytes_eq_iff req.path index_path)

    served :
        AsksPage req
        → route req page ≡ record { status = 200; reason = codes "OK"; body = page; allow = none }
    served h = ground (arith, bytes_eq_iff req.path root_path, bytes_eq_iff req.path index_path)

-- A HEAD is routed as the GET of the same target, body and all.
pub route-head :
    (req : Request) (page : Bytes)
    → route (record req { method = head }) page ≡ route (record req { method = get }) page
unfolding route
route-head req page = refl
