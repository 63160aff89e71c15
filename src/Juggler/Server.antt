-- ===== src/Juggler/Server.antt =====
-- juggler/server.go: the service of one connection, and the upgrade of an HTTP request to it.
use exp.Base.{
  ℕ, suc, ◌≡◌, refl, Bool, true, false, Option, none, some, List, [], ◌∷◌, ◌++◌, Text, codes,
  text_eq, if◌then◌else◌,
}

-- What the server does: it counts up or down, sets the read limit, tells `ConnState`, starts the three
-- goroutines of the connection, waits for the kill channel, logs, or closes the websocket.
pub data Action : Type 0 where
  counted_up counted_down : Text → Action
  read_limit started waited closed_websocket : Action
  told : Text → Action
  logged : Text → Action

-- Whether the server has `Vars` and `ConnState`, and the errors of the brokers.
pub record Serving : Type 0 where
  pub has_vars : Bool
  pub has_conn_state : Bool
  pub results_error : Option Text
  pub pub_sub_error : Option Text

module _ (srv : Serving) where
  abbrev pub told_if : Text → List Action
  told_if state = if srv.has_conn_state then told state ∷ [] else []

  abbrev pub served : Option Text → List Action
  served (some e) =
      logged (codes "failed to create pubsub connection: " ++ e ++ codes "; dropping connection")
      ∷ []
  served none = told_if (codes "Connected") ++ (started ∷ waited ∷ told_if (codes "Closing"))

  abbrev pub with_brokers : Option Text → List Action
  with_brokers (some e) =
      logged (codes "failed to create results connection: " ++ e ++ codes "; dropping connection")
      ∷ []
  with_brokers none = served srv.pub_sub_error

  abbrev pub counted_around : Bool → List Action → List Action
  counted_around false as_ = as_
  counted_around true as_ =
      counted_up (codes "ActiveConns") ∷ counted_up (codes "TotalConns") ∷ as_
      ++ counted_down (codes "ActiveConns") ∷ []

  -- `ServeConn`; a deferred call stands at the end.
  unfoldable pub serve_conn : List Action
  serve_conn = counted_around srv.has_vars (read_limit ∷ with_brokers srv.results_error)

  -- `Subprotocols` and `isIn`.
  abbrev pub subprotocols : List Text
  subprotocols = codes "juggler.0" ∷ []

  abbrev pub is_in : List Text → Text → Bool
  is_in [] v = false
  is_in (vv ∷ list) v = if text_eq vv v then true else is_in list v

  -- The handler of `Upgrade`, on the subprotocol of the websocket or the upgrader's error.
  abbrev pub upgraded : Bool → List Action
  upgraded false =
      logged (codes "juggler: no supported subprotocol, closing connection") ∷ closed_websocket ∷ []
  upgraded true = serve_conn ++ closed_websocket ∷ []

  unfoldable pub upgrade : Option Text → List Action
  unfolding serve_conn
  upgrade none = []
  upgrade (some subprotocol) = upgraded (is_in subprotocols subprotocol)

-- How often a variable is counted up, and down.
abbrev pub ups : Text → List Action → ℕ
ups name [] = 0
ups name (counted_up n ∷ as_) = let rest = ups name as_ in if text_eq n name then suc rest else rest
ups name (_ ∷ as_) = ups name as_

abbrev pub downs : Text → List Action → ℕ
downs name [] = 0
downs name (counted_down n ∷ as_) =
    let rest = downs name as_ in if text_eq n name then suc rest else rest
downs name (_ ∷ as_) = downs name as_

-- However a connection ends, the active connections are counted down as often as up.
pub upgrade-balanced :
    (srv : Serving) (subprotocol : Option Text)
    → ups (codes "ActiveConns") (upgrade srv subprotocol)
      ≡ downs (codes "ActiveConns") (upgrade srv subprotocol)
unfolding upgrade
upgrade-balanced srv none = refl
upgrade-balanced srv (some subprotocol) = by_protocol (is_in srv (subprotocols srv) subprotocol)
  where
    by_brokers :
        (vars state : Bool) (r p : Option Text)
        → (let as_ =
              upgraded
                (record {
                  has_vars = vars;
                  has_conn_state = state;
                  results_error = r;
                  pub_sub_error = p;
                })
                true in
            ups (codes "ActiveConns") as_ ≡ downs (codes "ActiveConns") as_)
    by_brokers true state (some e) p = refl
    by_brokers true state none (some e) = refl
    by_brokers true true none none = refl
    by_brokers true false none none = refl
    by_brokers false state (some e) p = refl
    by_brokers false state none (some e) = refl
    by_brokers false true none none = refl
    by_brokers false false none none = refl

    by_protocol :
        (b : Bool)
        → ups (codes "ActiveConns") (upgraded srv b) ≡ downs (codes "ActiveConns") (upgraded srv b)
    by_protocol false = refl
    by_protocol true =
        by_brokers srv.has_vars srv.has_conn_state srv.results_error srv.pub_sub_error
