-- ===== src/Commands/Remote.antt =====
-- pkg/commands/option/remote.go: the headers that a client sends, with WithCustomHeaders of
-- pkg/rpc/client/headers.go.
pub mod Laws
use trivy.Base.{
  ℕ, ◌+◌, Bool, not, ◌&&◌, List, [], ◌∷◌, Option, none, some, if◌then◌else◌, take, drop,
}
use trivy.Base.Text.{Str, ◌==◌, index}
use trivy.Base.Dict.{Dict, lookup, store}

-- http.Header: the values by the canonical name
abbrev pub Header : Type 0
Header = Dict (List Str)

-- RemoteOption: the flags, and what Init makes of them
pub record RemoteOption : Type 0 where
  pub remote_addr : Str
  pub custom_headers_flag : List Str
  pub token : Str
  pub token_header : Str
  pub remote : Str
  pub custom_headers : Header

-- The first of the values that a name has, or the empty text.
abbrev pub first_value : Option (List Str) → Str
first_value none = []
first_value (some []) = []
first_value (some (value ∷ values)) = value

-- `canonical` is textproto.CanonicalMIMEHeaderKey.
module _ (canonical : Str → Str) where
  -- Header.Set
  abbrev pub set : Str → Str → Header → Header
  set key value header = store (canonical key) (value ∷ []) header

  -- Header.Get
  abbrev pub get : Str → Header → Str
  get key header = first_value (lookup (canonical key) header)

  -- The loop of splitCustomHeaders.
  unfoldable pub split_from : List Str → Header → Header
  split_from [] result = result
  split_from (header ∷ headers) result = elim (index b':' header) [
    | none ↦ split_from headers result
    | some i ↦ split_from headers (set (take i header) (drop (i + 1) header) result)
  ]

  -- splitCustomHeaders
  unfoldable pub split_custom_headers : List Str → Header
  unfolding split_from
  split_custom_headers headers = split_from headers []

  -- The deferred assignments of RemoteOption.Init.
  abbrev pub cleared : RemoteOption → RemoteOption
  cleared c = record c { token = []; token_header = []; remote = []; custom_headers_flag = [] }

  -- The headers of RemoteOption.Init, with the token where there is one.
  unfoldable pub headers_of : RemoteOption → Header
  unfolding split_custom_headers
  headers_of c =
      let headers = split_custom_headers c.custom_headers_flag in
      if not (c.token == []) then set c.token_header c.token headers else headers

  -- RemoteOption.Init
  unfoldable pub init_remote : RemoteOption → RemoteOption
  unfolding headers_of
  init_remote c =
      let addr = if not (c.remote == []) then c.remote else c.remote_addr in
      let addressed = record c { remote_addr = addr } in
      if addr == []
      then cleared addressed
      else cleared (record addressed { custom_headers = headers_of c })

-- WithCustomHeaders: `with_headers` is twirp.WithHTTPRequestHeaders, `none` where it returns an error
unfoldable pub with_custom_headers : {C : Type 0} → (C → Header → Option C) → C → Header → C
with_custom_headers with_headers ctx custom_headers = elim (with_headers ctx custom_headers) [
  | none ↦ ctx
  | some with_token ↦ with_token
]
