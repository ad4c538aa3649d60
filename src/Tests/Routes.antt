-- ===== src/Tests/Routes.antt =====
-- A regular user asks for the deletion of a proxy; and the end of a short file.
use ats_proxy_manager.Prelude.Lines.{newline, length, render, one_line, fits}
use ats_proxy_manager.Prelude.{
  ℕ, zero, suc, ap, List, ◌++◌, true, false, Option, none, some, [], ◌∷◌, ◌≡◌, refl, Str, codes,
}
use ats_proxy_manager.Domain.Enums.{UserRole}
use ats_proxy_manager.Domain.Models.{User}
use ats_proxy_manager.Store.{Db, World, idle}
use ats_proxy_manager.Auth.{generate_token, parse_token}
use ats_proxy_manager.Handler.Middleware.{bearer, auth_middleware}
use ats_proxy_manager.Helper.Manager.Logs.{read_last_lines, last_of, read_last_lines-drop}
use ats_proxy_manager.Handler.Middleware.Bearer.{Untrusted}
use ats_proxy_manager.Server.Access.{UserRequest, AccessRequest, serve_access}
use ats_proxy_manager.Server.Routes.{
  Route, serve_route, is_by_admin, serve_route_closed, serve_route_restricted,
}
use ats_proxy_manager.Tests.Samples.{sample}
use ats_proxy_manager.Tests.Story.{admin, registered}
use ats_proxy_manager.Tests.Tokens.{plain_tokens}

abbrev bob : User
bob = record admin { id = 3; username = codes "bob"; role = UserRole.regular }

abbrev access_token : Option (Str × Str) → Str
access_token none = []
access_token (some ts) = ts.0

abbrev header : Str
header =
    bearer
    ++ access_token
        (generate_token sample plain_tokens [] bob (record { access = 1; refresh = 2 }) 10)

abbrev world : World
world = record { db = registered; faults = []; now = 20; tx = idle }

-- One byte, which is no token.
abbrev forged : Str
forged = bearer ++ 5 ∷ []

no_token : Untrusted plain_tokens [] 20 forged
unfolding plain_tokens
no_token token e = rw (of_token token e) refl
  where
    of_token : (token : Str) → forged ≡ bearer ++ token → token ≡ 5 ∷ []
    of_token token e = cc e

abbrev serves : AccessRequest → Db
serves q = (serve_access sample plain_tokens [] q (codes "ip") (codes "ua") world).1.db

serve_route_closed_example :
    ((serve_route sample plain_tokens []
        (Route.submit (2 ∷ []))
        forged
        (codes "ip")
        (codes "ua")
        world).1.db
      ≡ registered)
    × (serves (AccessRequest.users (UserRequest.delete (1 ∷ [])) forged) ≡ registered)
    × (serves (AccessRequest.beacon forged) ≡ registered)
    × (serves (AccessRequest.logout forged) ≡ registered)
serve_route_closed_example =
    serve_route_closed sample plain_tokens [] (Route.submit (2 ∷ [])) (UserRequest.delete (1 ∷ []))
      forged (codes "ip") (codes "ua") world no_token

by_bob : is_by_admin (auth_middleware plain_tokens [] 20 header) ≡ false
unfolding auth_middleware generate_token parse_token plain_tokens
by_bob = refl

serve_route_restricted_example :
    ((serve_route sample plain_tokens []
        (Route.delete_config (1 ∷ []))
        header
        (codes "ip")
        (codes "ua")
        world).1.db
      ≡ registered)
    × (((serve_route sample plain_tokens []
            (Route.delete_proxy (1 ∷ []))
            header
            (codes "ip")
            (codes "ua")
            world).1.db
          ≡ registered)
        × ((serve_route sample plain_tokens []
              (Route.assign_config (1 ∷ []) none)
              header
              (codes "ip")
              (codes "ua")
              world).1.db
            ≡ registered))
serve_route_restricted_example =
    serve_route_restricted sample plain_tokens [] (1 ∷ []) none header (codes "ip") (codes "ua")
      world by_bob

-- A line of one byte, so many times.
xs : ℕ → Str
xs zero = []
xs (suc n) = 120 ∷ xs n

length-xs : (n : ℕ) → length (xs n) ≡ n
unfolding xs
length-xs zero = refl
length-xs (suc n) = ap suc (length-xs n)

one_line-xs : (n : ℕ) → one_line (xs n) ≡ true
unfolding xs
one_line-xs zero = refl
one_line-xs (suc n) = one_line-xs n

xs_too_long : fits (xs 65536) ≡ false
xs_too_long = rw (length-xs 65536) refl

abbrev short : List Str
short = codes "a" ∷ codes "" ∷ codes "b" ∷ []

read_last_lines-drop_example :
    (read_last_lines 2 (some (render short)) ≡ last_of 2 short)
    × (read_last_lines 2 (some (render short ++ (xs 65536 ++ newline ∷ codes "c")))
        ≡ last_of 2 short)
    × (read_last_lines 2 none ≡ [])
read_last_lines-drop_example =
    read_last_lines-drop 2 short (xs 65536) (codes "c")
      ((refl, refl, refl), ((refl, refl, refl), ((refl, refl, refl), tt))) (one_line-xs 65536)
      xs_too_long
