-- ===== src/Examples/Sessions.antt =====
-- A session that is created for a token, and validated by it.
use looplink.Base.{◌≡◌, refl, ◌∷◌, arith}
use looplink.Text.{Text, codes, trim}
use looplink.Sessions.{empty}
use looplink.Sessions.Service.{create_session, validate, valid}
use looplink.Sessions.Service.RoundTrip

-- The hash of this example writes one code unit before the token.
abbrev marked : Text → Text
marked token = 35 ∷ token

abbrev token : Text
token = codes "bga_x7Qp"

create_session-validate_example :
    (validate marked (create_session marked empty token (codes "s1") 10 50).0 40 token).1
    ≡ valid (record (create_session marked empty token (codes "s1") 10 50).1 { last_seen_at = 40 })
create_session-validate_example =
    RoundTrip.create_session-validate marked empty token (codes "s1") 10 50 40 (unfold trim in refl)
      refl refl (omega arith)
