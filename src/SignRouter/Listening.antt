-- ===== src/SignRouter/Listening.antt =====
-- internal/signrouter/server.go: a router that listens at a URL.
use besu_interbank_demo.Base.{List, ◌++◌, ◌≡◌, ◌⊎◌, inl, refl, Bytes, utf8, bytes_eq, true}
use besu_interbank_demo.Base.Outcome.{ok, done}
use besu_interbank_demo.Platform.Geth.{Geth}
use besu_interbank_demo.Platform.Http.{post, Call, Response, at_path, route}
use besu_interbank_demo.Platform.Machine.{Machine}
use besu_interbank_demo.SignRouter.Server.{Server, endpoints, handle_sign, handler}

-- The two paths that a router serves.
abbrev pub IsRouterPath : Bytes → Type 0
IsRouterPath path = (path ≡ utf8 "/sign") ⊎ (path ≡ utf8 "/health")

module _ {G : Geth} (m : Machine G) where
  -- A router listens at the URL `base`: a call of one of its paths below that URL, with any method, gets the
  -- answer of the router's handler for that method and path, and the world is as it was.
  pub record ListensAt (base : Bytes) (router : Server G) : Type 0 where
    -- the order in which the map of its keys is visited
    pub visited : List Bytes
    pub url : (path : Bytes) → IsRouterPath path → m.is_url (base ++ path) ≡ true
    pub reaches :
        (c : Call) (path : Bytes)
        → IsRouterPath path
        → c.url ≡ base ++ path
        → (w : m.World) (resp : Response) → handler G visited router (at_path path c) ≡ done resp
        → m.http c w ≡ (ok resp, w)

  -- A post to /sign below the URL gets the answer of the sign handler.
  pub sign_reaches :
      (base : Bytes) {router : Server G}
      → ListensAt base router
      → (c : Call) → c.method ≡ post
      → c.url ≡ base ++ utf8 "/sign"
      → (w : m.World) (resp : Response)
      → handle_sign G router (at_path (utf8 "/sign") c) ≡ done resp
      → m.http c w ≡ (ok resp, w)
  unfolding handler handle_sign endpoints route bytes_eq
  sign_reaches base {router} there c posted at w resp answered =
      there.reaches c (utf8 "/sign") (inl refl) at w resp (rw (posted) answered)
