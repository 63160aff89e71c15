-- ===== src/Juggler/Handler/Recover.antt =====
-- juggler/handler.go: `Chain` and `PanicRecover`.
use exp.Base.{
  ◌≡◌, refl, ◌∙◌, ap, Option, none, some, List, [], ◌∷◌, ◌++◌, Text, codes, ◌⊎◌, inl, inr, sym,
  Bool-cases,
}
use exp.Juggler.Msg.{Msg}
use exp.Juggler.Conn.{Conn, logged, close, close_once, act, add_fn}

-- How a handler ends, and the connection then.
pub data Handled : Type 0 where
  returned : Conn → Handled
  panicked : Text → Conn → Handled

abbrev pub HandlerFunc : Type 0
HandlerFunc = Conn → Msg → Handled

-- The loop of `Chain`; a panic ends it.
unfoldable pub chain : List HandlerFunc → HandlerFunc
chain [] c m = returned c
chain (h ∷ hs) c m = elim (h c m) [ returned c' ↦ chain hs c' m | panicked e c' ↦ panicked e c' ]

-- `recover` in the deferred function: the panic's text is the error.
unfoldable pub panic_recover : HandlerFunc → HandlerFunc
panic_recover h c m = elim (h c m) [
  | returned c' ↦ returned c'
  | panicked e c' ↦
      returned (act logged (act logged (close e (add_fn (codes "RecoveredPanics") c'))))
]

add_fn-close_err : (name : Text) (c : Conn) → (add_fn name c).close_err ≡ c.close_err
unfolding add_fn act
add_fn-close_err name c = elim (Bool-cases c.has_vars) [
  | inl h ↦ rw (add_fn, h) refl
  | inr h ↦ rw (add_fn, h) refl
]

-- The connection is closed, by the error `e` unless it was closed before.
abbrev pub ClosedBy : Text → Conn → Conn → Type 0
ClosedBy e c c' =
    ((c.close_err ≡ none) × (c'.close_err ≡ some e))
    ⊎ ((e' : Text) × (c.close_err ≡ some e') × (c'.close_err ≡ some e'))

close-ClosedBy : (e : Text) (c c₁ : Conn) → c₁.close_err ≡ c.close_err → ClosedBy e c (close e c₁)
unfolding close
close-ClosedBy e c c₁ same = once c₁.close_err refl
  where
    once : (o : Option Text) → c₁.close_err ≡ o → ClosedBy e c (close_once o e c₁)
    once none h = inl (sym same ∙ h, refl)
    once (some e') h = inr (e', sym same ∙ h, h)

-- If the first handlers of a chain return, the others run on the connection that these left.
pub chain-append :
    (hs ks : List HandlerFunc) (c d : Conn) (m : Msg)
    → chain hs c m ≡ returned d
    → chain (hs ++ ks) c m ≡ chain ks d m
unfolding chain
chain-append [] ks c d m h = let same : c ≡ d = cc in ap (λ x. chain ks x m) same
chain-append (f ∷ hs) ks c d m h = ran (f c m) h (λ c'. chain-append hs ks c' d m)
  where
    ran :
        (r : Handled)
        → (elim r [ returned c' ↦ chain hs c' m | panicked e c' ↦ panicked e c' ]) ≡ returned d
        → ((c' : Conn) → chain hs c' m ≡ returned d → chain (hs ++ ks) c' m ≡ chain ks d m)
        → (elim r [ returned c' ↦ chain (hs ++ ks) c' m | panicked e c' ↦ panicked e c' ])
          ≡ chain ks d m
    ran (returned c') h' rest = rest c' h'
    ran (panicked e c') h' rest = cc

-- A handler that panics returns under `PanicRecover`, with the connection closed: by the panic's
-- error, unless the connection was closed before it, by an error that then stays.
pub panic_recover-ClosedBy :
    (h : HandlerFunc) (c c' : Conn) (m : Msg) (e : Text)
    → h c m ≡ panicked e c'
    → (d : Conn) × (panic_recover h c m ≡ returned d) × ClosedBy e c' d
unfolding panic_recover act
panic_recover-ClosedBy h c c' m e p =
    let c₁ = add_fn (codes "RecoveredPanics") c' in
    let d = act logged (act logged (close e c₁)) in
    (
      d,
      rw (panic_recover, p) refl,
      close-ClosedBy e c' c₁ (add_fn-close_err (codes "RecoveredPanics") c'),
    )
