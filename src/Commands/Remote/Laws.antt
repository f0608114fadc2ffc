-- ===== src/Commands/Remote/Laws.antt =====
-- The headers of a client, and the test of the token on the server.
use trivy.Base.{
  ◌+◌, ◌≡◌, ◌≢◌, ◌&&◌, refl, ap, ◌∙◌, inl, inr, Bool-cases, not, List, [], ◌∷◌, Option, none, some,
  if◌then◌else◌, take, drop, Option-cases, ◌↔◌, ◌⊎◌,
}
use trivy.Base.Text.{Str, ◌==◌, index, ==_cases, ==_refl}
use trivy.Base.Dict.{lookup, lookup-store}
use trivy.Commands.Remote.{
  Header, RemoteOption, first_value, get, set, split_from, split_custom_headers, headers_of,
  init_remote, with_custom_headers,
}
use trivy.Rpc.Listen.{with_token, served, unauthenticated}

with_custom_headers-none :
    {C : Type 0} (with_headers : C → Header → Option C) (ctx : C) (h : Header)
    → with_headers ctx h ≡ none
    → with_custom_headers with_headers ctx h ≡ ctx
unfolding with_custom_headers
with_custom_headers-none with_headers ctx h r = rw (r, with_custom_headers) refl

with_custom_headers-some :
    {C : Type 0} (with_headers : C → Header → Option C) (ctx : C) (h : Header) {ctx' : C}
    → with_headers ctx h ≡ some ctx'
    → with_custom_headers with_headers ctx h ≡ ctx'
unfolding with_custom_headers
with_custom_headers-some with_headers ctx h r = rw (r, with_custom_headers) refl

module _ (canonical : Str → Str) where
  -- The value of the last header of the flag that has a name, up to its canonical form.
  abbrev pub last_value : Str → List Str → Option Str
  last_value key [] = none
  last_value key (header ∷ headers) = elim (last_value key headers) [
    | some value ↦ some value
    | none ↦ elim (index b':' header) [
      | none ↦ none
      | some i ↦
          if canonical (take i header) == canonical key then some (drop (i + 1) header) else none
    ]
  ]

  abbrev or_else : Option Str → Option (List Str) → Option (List Str)
  or_else none old = old
  or_else (some value) old = some (value ∷ [])

  lookup-split_from :
      (key : Str) (headers : List Str) (h : Header)
      → lookup (canonical key) (split_from canonical headers h)
        ≡ or_else (last_value key headers) (lookup (canonical key) h)
  unfolding split_from
  lookup-split_from key [] h = refl
  lookup-split_from key (header ∷ headers) h = elim (Option-cases (index b':' header)) [
    | inl e ↦ elim (Option-cases (last_value key headers)) [
      | inl n ↦ rw (n, e, split_from) (rw n at (lookup-split_from key headers h))
      | inr (v, n) ↦ rw (n, e, split_from) (rw n at (lookup-split_from key headers h))
    ]
    | inr (i, e) ↦
        let set_h = set canonical (take i header) (drop (i + 1) header) h in
        let stored =
          lookup-store (canonical (take i header)) (canonical key) (drop (i + 1) header ∷ []) h in
        let rest = lookup-split_from key headers set_h in
        elim (Option-cases (last_value key headers)) [
          | inr (v, n) ↦ rw (n, e, split_from) (rw n at rest)
          | inl n ↦ elim (Bool-cases (canonical (take i header) == canonical key)) [
            | inl t ↦ rw (n, e, t, split_from) (rw n at rest ∙ rw t at stored)
            | inr f ↦ rw (n, e, f, split_from) (rw n at rest ∙ rw f at stored)
          ]
        ]
  ]

  abbrev pub or_empty : Option Str → Str
  or_empty none = []
  or_empty (some value) = value

  -- The value that the flags ask for: the token, or the last of the custom headers.
  abbrev pub wanted : RemoteOption → Str → Str
  wanted c key =
      if not (c.token == []) && canonical c.token_header == canonical key
      then c.token
      else or_empty (last_value key c.custom_headers_flag)

  get-split_custom_headers :
      (key : Str) (headers : List Str)
      → get canonical key (split_custom_headers canonical headers)
        ≡ or_empty (last_value key headers)
  unfolding split_custom_headers lookup
  get-split_custom_headers key headers =
      ap first_value (lookup-split_from key headers [])
      ∙ (elim (Option-cases (last_value key headers)) [
        | inl n ↦ rw n refl
        | inr (v, n) ↦ rw n refl
      ])

  get-headers_of :
      (c : RemoteOption) (key : Str) → get canonical key (headers_of canonical c) ≡ wanted c key
  unfolding headers_of
  get-headers_of c key = elim (Bool-cases (c.token == [])) [
    | inl t ↦ rw (t, headers_of) (get-split_custom_headers key c.custom_headers_flag)
    | inr f ↦
        let stored =
          lookup-store (canonical c.token_header) (canonical key) (c.token ∷ [])
            (split_custom_headers canonical c.custom_headers_flag) in
        elim (Bool-cases (canonical c.token_header == canonical key)) [
          | inl t ↦ rw (f, t, headers_of) (ap first_value (rw t at stored))
          | inr g ↦
              rw (f, g, headers_of)
                (ap first_value (rw g at stored)
                  ∙ get-split_custom_headers key c.custom_headers_flag)
        ]
  ]

  -- Where Init leaves an address, the header that a name has by then is the token, if there is one and
  -- the name is that of its header, and else the value of the last custom header of this name, names
  -- taken up to their canonical form.
  pub get-init_remote :
      (c : RemoteOption) (key : Str)
      → (init_remote canonical c).remote_addr ≢ []
      → get canonical key (init_remote canonical c).custom_headers ≡ wanted c key
  unfolding init_remote
  get-init_remote c key h =
      let addr = if not (c.remote == []) then c.remote else c.remote_addr in
      elim (==_cases addr []) [
        | inl (t, e) ↦ absurd (h (rw (t, init_remote) e))
        | inr (f, _) ↦ rw (f, init_remote) (get-headers_of c key)
      ]

  -- The client of a context with the headers of Init and the token of the server is served exactly if
  -- there is no token or twirp takes the headers: with headers that it rejects, WithCustomHeaders
  -- drops the token too. Init leaves an address, the names of the token's header have one canonical
  -- form, the context has no such header, and a request with headers that twirp takes arrives with the
  -- token where it is the value of its header.
  pub init_remote-with_token :
      {C : Type 0} (with_headers : C → Header → Option C) (arrived : C → Header) (ctx : C)
      (c : RemoteOption) (server_header : Str)
      → (init_remote canonical c).remote_addr ≢ []
      → canonical server_header ≡ canonical c.token_header
      → get canonical server_header (arrived ctx) ≡ []
      → ((h : Header) (ctx' : C)
          → with_headers ctx h ≡ some ctx'
          → get canonical server_header h ≡ c.token
          → get canonical server_header (arrived ctx') ≡ c.token)
      → (with_token c.token (
            get canonical server_header (
              arrived
                (with_custom_headers with_headers ctx (init_remote canonical c).custom_headers)))
          ≡ served)
        ↔ (c.token ≡ [])
          ⊎ (ctx' : C) × (with_headers ctx (init_remote canonical c).custom_headers ≡ some ctx')
  unfolding with_token
  init_remote-with_token with_headers arrived ctx c server_header h same bare taken =
      elim (==_cases c.token []) [
        | inl (t, e) ↦ (λ _. inl e, λ _. rw (t, with_token) refl)
        | inr (f, n) ↦
            elim (Option-cases (with_headers ctx (init_remote canonical c).custom_headers)) [
              | inl r ↦
                  let dropped = with_custom_headers-none with_headers ctx _ r in
                  (
                    λ s. absurd (
                        let s' : unauthenticated ≡ served =
                          rw (dropped, bare, f, with_token) at s in
                        cc),
                    λ d. elim d [ inl e ↦ absurd (n e) | inr (_, r') ↦ absurd (cc (r, r')) ],
                  )
              | inr (ctx', r) ↦
                  let asked : wanted c server_header ≡ c.token =
                    rw (f, same, ==_refl (canonical c.token_header)) refl in
                  let got = taken _ ctx' r (get-init_remote c server_header h ∙ asked) in
                  let sent = with_custom_headers-some with_headers ctx _ r in
                  (λ _. inr (ctx', r), λ _. rw (sent, f, got, ==_refl c.token, with_token) refl)
            ]
      ]
