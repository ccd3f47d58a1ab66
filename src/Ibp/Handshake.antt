-- ===== src/Ibp/Handshake.antt =====
-- acceptNegotiation of protocol.go: what the server holds of a version and of capabilities.
use aspect_gazelle.Base.{
  ℕ, String, ◌≡◌, refl, ◌≢◌, Bool, true, false, Option, none, some, List, [], ◌∷◌, arith, all, ◌==◌,
  string_eq, Bool-cases, inl, inr, subst, true-false,
}
use aspect_gazelle.Base.Assoc.{lookup, insert, lookup-insert}
use aspect_gazelle.Base.Exec.{Result, ok, err}
use aspect_gazelle.Base.Exec.Triple.{
  Post, bind_result-eq_ok, ok-injective, Triple, Triple-bind, Triple-map_err, Triple-lift,
  Triple-require, Triple-if, Triple-gets, Triple-error, Triple-weaken, Triple-pure, Triple-result,
  Triple-assume, Triple-modify,
}
use aspect_gazelle.Ibp.Json.{Json, null, Fields, end, field, Items, nil, cons}
use aspect_gazelle.Base.Int.{ℤ}
use aspect_gazelle.Ibp.Caps.{
  Error, Caps, CapValue, scopes, flag, raw, is_scope, is_supported, has_cap_message, read_scopes,
  read_scope_cap_list, at_least_one, read_cap, read_cap_bool, default_caps, read_caps_loop,
  read_caps_request_map,
}
use aspect_gazelle.Ibp.Socket.{Socket, Sock, Outcome}
use aspect_gazelle.Ibp.Server.{
  Server, SpanContext, on_socket, with_result, negotiate_version, negotiate_capabilities,
  become_ready, accept_negotiation,
}

-- A list of scopes, not empty, of known scopes only.
pub record HasScopes (caps : Caps) : Type 0 where
  pub first : String
  pub others : List String
  pub found : lookup "scope" caps ≡ some (scopes (first ∷ others))
  pub known : all is_scope (first ∷ others) ≡ true

read_scopes-known :
    (xs : Items) (ss : List String) → read_scopes xs ≡ ok ss → all is_scope ss ≡ true
unfolding read_scopes
read_scopes-known nil ss h = ground arith
read_scopes-known (cons (Json.str s) vs) ss h = elim (Bool-cases (is_scope s)) [
  | inr unknown ↦ cc (rw unknown at h)
  | inl known ↦
      let (rest, read, e) = bind_result-eq_ok (read_scopes vs) _ (rw known at h) in
      ground (arith, read_scopes-known vs rest read)
]
read_scopes-known (cons null vs) ss h = cc
read_scopes-known (cons (Json.bool b) vs) ss h = cc
read_scopes-known (cons (Json.num n) vs) ss h = cc
read_scopes-known (cons (Json.arr a) vs) ss h = cc
read_scopes-known (cons (Json.obj o) vs) ss h = cc

at_least_one-eq_ok :
    (ss : List String) (ts : List String)
    → at_least_one ss ≡ ok ts
    → (t : String) × (rest : List String) × (ts ≡ t ∷ rest) × (ss ≡ t ∷ rest)
at_least_one-eq_ok [] ts h = cc
at_least_one-eq_ok (s ∷ ss) ts h = (s, ss, cc, refl)

-- What is stored for the scope capability.
read_scope_cap_list-known :
    (val : Json) (ss : List String)
    → read_scope_cap_list val ≡ ok ss
    → (t : String) × (rest : List String) × (ss ≡ t ∷ rest) × (all is_scope (t ∷ rest) ≡ true)
unfolding read_scope_cap_list
read_scope_cap_list-known (Json.arr xs) ss h =
    let (read, r, e) = bind_result-eq_ok (read_scopes xs) at_least_one h in
    let (t, rest, q, p) = at_least_one-eq_ok read ss e in
    (t, rest, q, subst (λ (l : List String). all is_scope l ≡ true) p (read_scopes-known xs read r))
read_scope_cap_list-known null ss h = cc
read_scope_cap_list-known (Json.bool b) ss h = cc
read_scope_cap_list-known (Json.num n) ss h = cc
read_scope_cap_list-known (Json.str s) ss h = cc
read_scope_cap_list-known (Json.obj o) ss h = cc

insert-HasScopes :
    (key : String) (v : CapValue) (caps : Caps)
    → HasScopes caps
    → (key == "scope") ≡ false
    → HasScopes (insert key v caps)
insert-HasScopes key v caps c e = record {
  first = c.first;
  others = c.others;
  found = rw (lookup-insert, e) c.found;
  known = c.known;
}

read_cap-HasScopes :
    (key : String) (val : Json) (caps caps' : Caps)
    → HasScopes caps
    → read_cap key val caps ≡ ok caps'
    → HasScopes caps'
unfolding read_cap
read_cap-HasScopes key val caps caps' c h = elim (Bool-cases (key == "scope")) [
  | inl is ↦
      let (ss, read, e) = bind_result-eq_ok (read_scope_cap_list val) _ (rw is at h) in
      let (t, rest, q, k) = read_scope_cap_list-known val ss read in
      subst HasScopes (ok-injective e)
        (record { first = t; others = rest; found = rw (q, lookup-insert); known = k })
  | inr other ↦ elim (Bool-cases (key == "otel")) [
    | inl otel ↦
        subst HasScopes (ok-injective (rw (other, otel) at h))
          (insert-HasScopes "otel" (flag (read_cap_bool val)) caps c refl)
    | inr unknown ↦
        subst HasScopes (ok-injective (rw (other, unknown) at h))
          (insert-HasScopes key (raw val) caps c other)
  ]
]

read_caps_loop-HasScopes :
    (fs : Fields) (caps caps' : Caps)
    → HasScopes caps
    → read_caps_loop fs caps ≡ ok caps'
    → HasScopes caps'
unfolding read_caps_loop
read_caps_loop-HasScopes end caps caps' c h = subst HasScopes (ok-injective h) c
read_caps_loop-HasScopes (field key val fs) caps caps' c h =
    let (mid, read, e) = bind_result-eq_ok (read_cap key val caps) _ h in
    read_caps_loop-HasScopes fs mid caps' (read_cap-HasScopes key val caps mid c read) e

default_caps-HasScopes : HasScopes default_caps
unfolding lookup
default_caps-HasScopes = record { first = "runfiles"; others = []; found = refl; known = refl }

-- Capabilities that are read, whatever the peer sent, hold a list of known scopes, not empty.
pub read_caps_request_map-HasScopes :
    (j : Json) (caps : Caps) → read_caps_request_map j ≡ ok caps → HasScopes caps
unfolding read_caps_request_map
read_caps_request_map-HasScopes null caps h =
    subst HasScopes (ok-injective h) default_caps-HasScopes
read_caps_request_map-HasScopes (Json.obj fs) caps h =
    read_caps_loop-HasScopes fs default_caps caps default_caps-HasScopes h
read_caps_request_map-HasScopes (Json.bool b) caps h = cc
read_caps_request_map-HasScopes (Json.num n) caps h = cc
read_caps_request_map-HasScopes (Json.str s) caps h = cc
read_caps_request_map-HasScopes (Json.arr a) caps h = cc

abbrev pub CapsValid : Option Caps → Type 0
CapsValid none = Unit
CapsValid (some caps) = HasScopes caps

-- Before the handshake is complete.
pub record IsPending (p : Server) : Type 0 where
  pub waiting : p.ready ≡ false
  pub caps_valid : CapsValid p.caps

-- After it.
pub record IsNegotiated (p : Server) : Type 0 where
  pub ready : p.ready ≡ true
  pub supported : is_supported p.version ≡ true
  pub caps_valid : CapsValid p.caps
  pub caps_known : has_cap_message p.version ≡ true → p.caps ≢ none

abbrev Chosen : ℤ → Server → Type 0
Chosen v p = IsPending p × (is_supported v ≡ true)

abbrev WithCaps : Server → Type 0
WithCaps p = IsPending p × (p.caps ≢ none)

-- A call of the socket changes nothing else.
Post-with_result :
    {A : Type 0} (P : Server → Type 0) (p : Server) (r : Result Error A × Socket)
    → ((s : Socket) → P (record p { socket = some s }))
    → Post (λ _. P) P (with_result p r)
Post-with_result P p (ok a, s) h = h s
Post-with_result P p (err e, s) h = h s

module _ {A : Type 0} (m : Sock A) where
  Post-on_socket :
      (P : Server → Type 0) (p : Server)
      → P p
      → ((s : Socket) → P (record p { socket = some s }))
      → (o : Option Socket)
      → Post {E = Error} {A = A}
          (λ _. P)
          P
          (elim o [ none ↦ (err Error.panic, p) | some s ↦ with_result p (m s) ])
  Post-on_socket P p h keep none = h
  Post-on_socket P p h keep (some s) = Post-with_result P p (m s) keep

  pub Triple-on_socket :
      (P : Server → Type 0)
      → ((p : Server) (s : Socket) → P p → P (record p { socket = some s }))
      → Triple P (on_socket m) (λ _. P) P
  unfolding on_socket
  Triple-on_socket P keep = record { at = λ p h. Post-on_socket P p h (λ s. keep p s h) p.socket }

  on_socket-IsPending : Triple IsPending (on_socket m) (λ _. IsPending) IsPending
  on_socket-IsPending = Triple-on_socket IsPending (λ p s h. ground arith)

  on_socket-WithCaps : Triple WithCaps (on_socket m) (λ _. WithCaps) IsPending
  on_socket-WithCaps =
      Triple-error IsPending (λ s h. h.0) (Triple-on_socket WithCaps (λ p s h. ground arith))

module _ (faulty : ℕ → Bool) (ctx : SpanContext) where
  negotiate_version-Chosen :
      (outcome : Outcome) → Triple IsPending (negotiate_version faulty ctx outcome) Chosen IsPending
  unfolding negotiate_version
  negotiate_version-Chosen outcome = Triple-bind (on_socket-IsPending _) λ _.
      Triple-bind (Triple-gets _ _) λ h. Triple-bind (Triple-map_err _ (on_socket-IsPending _)) λ _.
        Triple-bind (Triple-map_err _ (on_socket-IsPending _)) λ r.
          Triple-bind (Triple-require _ _ _) λ _.
            Triple-weaken _ (λ s p. p.0)
              (Triple-bind (Triple-lift _ _) λ v.
                Triple-weaken _ (λ s p. p.0)
                  (Triple-bind (Triple-require _ _ _) λ _. Triple-pure Chosen IsPending v))

  set_caps :
      (caps : Caps)
      → HasScopes caps
      → (p : Server) → IsPending p
      → WithCaps (record p { caps = some caps })
  set_caps caps c p h = (record { waiting = h.waiting; caps_valid = c }, λ e. cc e)

  negotiate_capabilities-WithCaps :
      Triple IsPending (negotiate_capabilities faulty ctx) (λ _. WithCaps) IsPending
  unfolding negotiate_capabilities
  negotiate_capabilities-WithCaps = Triple-bind (Triple-map_err _ (on_socket-IsPending _)) λ r.
      Triple-bind (Triple-require _ _ _) λ _.
        Triple-weaken _ (λ s p. p.0)
          (Triple-bind (Triple-map_err _ (Triple-lift _ _)) λ caps.
            Triple-bind
              (Triple-modify _ WithCaps _ _
                (λ s p. set_caps caps (read_caps_request_map-HasScopes _ caps p.1) s p.0))
              λ _.
                Triple-bind (Triple-error IsPending (λ s p. p.0) (Triple-gets WithCaps _))
                  λ h. Triple-map_err _ (on_socket-WithCaps _))

  -- What holds between the capabilities and the end of the handshake.
  abbrev Settled : ℤ → Server → Type 0
  Settled v p = Chosen v p × (has_cap_message v ≡ true → p.caps ≢ none)

  Post-become_ready :
      (v : ℤ) (p : Server)
      → Settled v p
      → Post (λ _. IsNegotiated) IsPending (become_ready faulty ctx v p)
  unfolding become_ready
  Post-become_ready v p h =
      rw h.0.0.waiting (record {
        ready = refl;
        supported = h.0.1;
        caps_valid = h.0.0.caps_valid;
        caps_known = h.1;
      })

  -- From a server that is waiting, acceptNegotiation ends without an error only where the server is
  -- ready with a supported version and, if that version has capabilities, with capabilities that
  -- hold a list of known scopes; with an error it stays waiting.
  pub accept_negotiation-IsNegotiated :
      (outcome : Outcome) (p : Server)
      → IsPending p
      → Post (λ _. IsNegotiated) IsPending (accept_negotiation faulty ctx outcome p)
  unfolding accept_negotiation
  accept_negotiation-IsNegotiated outcome p =
      (Triple-bind {Q = Chosen} (negotiate_version-Chosen outcome) λ v.
          Triple-bind {Q = λ _. Settled v}
            (Triple-if (has_cap_message v) _ _
              (λ has. Triple-assume λ supported. Triple-map_err _ (
                Triple-result (λ _. Settled v) (λ _ s q. ((q.0, supported), λ _. q.1))
                  negotiate_capabilities-WithCaps))
              (λ without.
                Triple-weaken _ (λ s q. (q, λ has. true-false has without))
                  (Triple-pure (λ _. Settled v) IsPending tt)))
            λ _. record { at = Post-become_ready v }).at
        p
