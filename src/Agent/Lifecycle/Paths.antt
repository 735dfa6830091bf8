-- ===== src/Agent/Lifecycle/Paths.antt =====
-- Which lifecycle states can be reached, and through which.
use oppa.Common.{
  ◌≡◌, ◌⊎◌, refl, sym, ap, ◌∙◌, Bool, true, false, List, [], ◌∷◌, ok, err, arith, Bool-cases,
  if◌then◌else◌, inl, inr,
}
use oppa.Common.Everywhere.{In}
use oppa.Agent.Lifecycle.{
  AgentState, unconfigured, pairing, disconnected, connecting, connected, degraded, shutting_down,
  AgentHandle, can_transition, transition,
}

-- The handle after a request; a refused one leaves it.
unfoldable pub requested : AgentHandle → AgentState → AgentHandle
requested handle next = elim (transition handle next) [ ok moved ↦ moved | err e ↦ handle ]

unfoldable pub request_all : List AgentState → AgentHandle → AgentHandle
unfolding requested
request_all [] handle = handle
request_all (next ∷ rest) handle = request_all rest (requested handle next)

-- The states alone.
follow : AgentState → List AgentState → AgentState
follow s [] = s
follow s (next ∷ rest) = follow (if can_transition s next then next else s) rest

-- A state of `inside` is entered from outside only by way of `gate`.
abbrev Gate : (AgentState → Bool) → AgentState → Type 0
Gate inside gate =
    (s next : AgentState)
    → inside s ≡ false
    → can_transition s next ≡ true
    → inside next ≡ true
    → next ≡ gate

follow-Gate :
    (inside : AgentState → Bool) (gate : AgentState)
    → Gate inside gate
    → (s : AgentState) (requests : List AgentState) → inside s ≡ false
    → inside (follow s requests) ≡ true
    → In gate requests
unfolding follow
follow-Gate inside gate only s [] out entered = cc
follow-Gate inside gate only s (next ∷ rest) out entered =
    elim (Bool-cases (can_transition s next)) [
      | inr refused ↦ inr (follow-Gate inside gate only s rest out (rw refused at entered))
      | inl accepted ↦ elim (Bool-cases (inside next)) [
        | inl now_in ↦ inl (sym (only s next out accepted now_in))
        | inr still_out ↦
            inr (follow-Gate inside gate only next rest still_out (rw accepted at entered))
      ]
    ]

abbrev pub has_credential_path : AgentState → Bool
has_credential_path unconfigured = false
has_credential_path shutting_down = false
has_credential_path _ = true

abbrev pub is_paired : AgentState → Bool
is_paired disconnected = true
is_paired connecting = true
is_paired connected = true
is_paired degraded = true
is_paired _ = false

abbrev pub has_socket : AgentState → Bool
has_socket connecting = true
has_socket connected = true
has_socket degraded = true
has_socket _ = false

pairing-Gate : Gate has_credential_path pairing
unfolding can_transition
pairing-Gate s next out may entered = ground arith

disconnected-Gate : Gate is_paired disconnected
unfolding can_transition
disconnected-Gate s next out may entered = ground arith

connecting-Gate : Gate has_socket connecting
unfolding can_transition
connecting-Gate s next out may entered = ground arith

state-requested :
    (handle : AgentHandle) (next : AgentState)
    → (requested handle next).snapshot.state
      ≡ (if can_transition handle.snapshot.state next then next else handle.snapshot.state)
unfolding requested transition
state-requested handle next = ground arith

pub requested_lem :
    (handle : AgentHandle) (next : AgentState)
    → requested handle next ≡ (
        if can_transition handle.snapshot.state next
        then record handle {
          snapshot = record handle.snapshot { state = next };
          watched = record handle.snapshot { state = next };
        }
        else handle)
unfolding requested transition
requested_lem handle next = ground arith

request_all-follow :
    (requests : List AgentState) (handle : AgentHandle)
    → (request_all requests handle).snapshot.state ≡ follow handle.snapshot.state requests
unfolding request_all follow
request_all-follow [] handle = refl
request_all-follow (next ∷ rest) handle =
    request_all-follow rest (requested handle next)
    ∙ ap (λ (s : AgentState). follow s rest) (state-requested handle next)

-- A handle that is unconfigured is connected or degraded only after requests for pairing,
-- disconnected and connecting.
pub connected_needs_pairing :
    (requests : List AgentState) (handle : AgentHandle)
    → handle.snapshot.state ≡ unconfigured
    → ((request_all requests handle).snapshot.state ≡ connected)
      ⊎ ((request_all requests handle).snapshot.state ≡ degraded)
    → In pairing requests × In disconnected requests × In connecting requests
connected_needs_pairing requests handle start reached =
    let e = request_all-follow requests handle in
    (
      follow-Gate has_credential_path pairing pairing-Gate handle.snapshot.state requests
          (ground arith) (ground (arith, e)),
      follow-Gate is_paired disconnected disconnected-Gate handle.snapshot.state requests
          (ground arith) (ground (arith, e)),
      follow-Gate has_socket connecting connecting-Gate handle.snapshot.state requests
          (ground arith) (ground (arith, e)),
    )

follow-shutting_down : (rs : List AgentState) → follow shutting_down rs ≡ shutting_down
unfolding follow can_transition
follow-shutting_down [] = refl
follow-shutting_down (r ∷ rs) = ground (arith, follow-shutting_down rs)

-- Shutting down is open to every state, and no later request leaves it.
pub shutting_down_absorbs :
    (handle : AgentHandle) (requests : List AgentState)
    → (request_all (shutting_down ∷ requests) handle).snapshot.state ≡ shutting_down
unfolding follow can_transition
shutting_down_absorbs handle requests =
    request_all-follow (shutting_down ∷ requests) handle
    ∙ ground (arith, follow-shutting_down requests)
