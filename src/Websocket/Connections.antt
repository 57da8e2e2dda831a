-- ===== src/Websocket/Connections.antt =====
-- internal/api/websocket/hub.go: the set of connections of one notification.
use event_driven_notificatio.Prelude.{
  not, ◌&&◌, sym, ◌||◌, ℕ, ◌≡◌, refl, ◌≢◌, ◌==◌, true, false, if◌then◌else◌, List, [], ◌∷◌, ◌++◌,
  any, arith, Bool-cases, inl, inr,
}
use event_driven_notificatio.Websocket.Hub.{remove_conn, add_conn}

-- No connection is listed twice.
abbrev pub Distinct : List ℕ → Type 0
Distinct [] = Unit
Distinct (c ∷ conns) = (any (λ d. d == c) conns ≡ false) × Distinct conns

pub any-append :
    (c d : ℕ) (conns : List ℕ)
    → any (λ e. e == c) (conns ++ d ∷ []) ≡ (if any (λ e. e == c) conns then true else d == c)
unfolding any
any-append c d [] = ground arith
any-append c d (e ∷ conns) = ground (arith, any-append c d conns)

pub Distinct-append :
    (c : ℕ) (conns : List ℕ)
    → Distinct conns
    → any (λ d. d == c) conns ≡ false
    → Distinct (conns ++ c ∷ [])
unfolding any
Distinct-append c [] h e = (refl, tt)
Distinct-append c (d ∷ conns) h e = ground (arith, Distinct-append c conns, any-append d c conns)

pub append-ne-nil : (c : ℕ) (conns : List ℕ) → conns ++ c ∷ [] ≢ []
append-ne-nil c [] = λ e. cc
append-ne-nil c (d ∷ conns) = λ e. cc

pub add_conn_lem :
    (c : ℕ) (conns : List ℕ)
    → Distinct conns
    → Distinct (add_conn c conns) × (add_conn c conns ≢ [])
unfolding add_conn any
add_conn_lem c conns h = elim (Bool-cases (any (λ d. d == c) conns)) [
  | inl old ↦ rw old (h, λ e. nonempty conns old e)
  | inr new ↦ rw new (Distinct-append c conns h new, append-ne-nil c conns)
]
  where
    nonempty : (ds : List ℕ) → any (λ d. d == c) ds ≡ true → ds ≢ []
    nonempty [] old e = cc
    nonempty (d ∷ ds) old e = cc

-- A member is found, and what is not found is no member.
pub any-same :
    (c d : ℕ) (conns : List ℕ)
    → any (λ e. e == c) conns ≡ true
    → c ≡ d
    → any (λ e. e == d) conns ≡ true
any-same c d conns found e = rw (sym e) found

pub any-add_conn :
    (c d : ℕ) (conns : List ℕ)
    → any (λ e. e == d) (add_conn c conns) ≡ (any (λ e. e == d) conns || c == d)
unfolding add_conn
any-add_conn c d conns = ground (arith, any-append d c conns, any-same c d conns)

pub any-remove_conn :
    (c d : ℕ) (conns : List ℕ)
    → any (λ e. e == d) conns ≡ false
    → any (λ e. e == d) (remove_conn c conns) ≡ false
unfolding any remove_conn
any-remove_conn c d [] h = refl
any-remove_conn c d (e ∷ conns) h = ground (arith, any-remove_conn c d conns)

pub Distinct-remove_conn :
    (c : ℕ) (conns : List ℕ) → Distinct conns → Distinct (remove_conn c conns)
unfolding remove_conn
Distinct-remove_conn c [] h = tt
Distinct-remove_conn c (d ∷ conns) h =
    ground (arith, Distinct-remove_conn c conns, any-remove_conn c d conns)

pub any-remove_conn_exact :
    (c d : ℕ) (conns : List ℕ)
    → Distinct conns
    → any (λ e. e == d) (remove_conn c conns) ≡ (any (λ e. e == d) conns && not (c == d))
unfolding any remove_conn
any-remove_conn_exact c d [] h = refl
any-remove_conn_exact c d (e ∷ conns) h =
    ground (arith, any-remove_conn_exact c d conns, any-same e d conns)

pub remove-append :
    (c : ℕ) (conns : List ℕ)
    → any (λ d. d == c) conns ≡ false
    → remove_conn c (conns ++ c ∷ []) ≡ conns
unfolding any remove_conn
remove-append c [] h = ground arith
remove-append c (d ∷ conns) h = ground (arith, remove-append c conns)
