-- ===== src/Daemon/Identity.antt =====
-- daemon.py: the channel identity that a process Stack's child is launched with.
use the_ozolith.Common.{
  String, ◌≡◌, refl, ap, subst, ◌∙◌, ◌≢◌, inl, inr, Bool, true, false, ◌&&◌, Option, none, some,
  List, [], ◌∷◌, arith, if◌then◌else◌, Bool-cases, ◌==◌, nat_eq, string_eq, pair_eq, triple_eq,
  list_eq, ==_refl, ==_false_of_ne, contains,
}
use the_ozolith.Common.Table.{find, put, delete, find-put}
use the_ozolith.Common.Exec.{Result, ok, err, bind-elim}
use the_ozolith.Daemon.{Fault, Env, WireStack, Host, Machine}
use the_ozolith.Daemon.Base.{lift, merge}
use the_ozolith.Daemon.Supervisor.{child_env}
use the_ozolith.Daemon.Spec.{
  reserved_channel_env, pop_all, identity, sealed, driver_env, with_secret_files, process_env,
}

-- the Control Node's URL, the node's token and its pinned CA, and no file form of any of them
pub record IsSealed {H : Type 0} (host : Host H) (env : Env) : Type 0 where
  pub url : find "CONTROL_NODE_URL" env ≡ some host.config.control_url
  pub token : find "THEOZOLITH_NODE_TOKEN" env ≡ some host.config.node_token
  pub ca :
      find "THEOZOLITH_TLS_CA" env
      ≡ (if host.config.tls_ca == "" then none else some host.config.tls_ca)
  pub url_file : find "CONTROL_NODE_URL_FILE" env ≡ none
  pub token_file : find "THEOZOLITH_NODE_TOKEN_FILE" env ≡ none
  pub ca_file : find "THEOZOLITH_TLS_CA_FILE" env ≡ none

-- the daemon's own environment has no file form of the channel variables, and no CA unless one is
-- pinned, which then stands over it
pub record IsBare {H : Type 0} (host : Host H) : Type 0 where
  pub ca : (if host.config.tls_ca == "" then find "THEOZOLITH_TLS_CA" host.environ else none) ≡ none
  pub url_file : find "CONTROL_NODE_URL_FILE" host.environ ≡ none
  pub token_file : find "THEOZOLITH_NODE_TOKEN_FILE" host.environ ≡ none
  pub ca_file : find "THEOZOLITH_TLS_CA_FILE" host.environ ≡ none

-- the values that a variable is given, the last of which holds
unfoldable values : String → Env → List String
values k [] = []
values k ((j, v) ∷ env) = let rest = values k env in if j == k then v ∷ rest else rest

abbrev last_or : List String → Option String → Option String
last_or [] o = o
last_or (v ∷ vs) o = last_or vs (some v)

values-delete :
    (j k : String) (env : Env) → values k (delete j env) ≡ (if j == k then [] else values k env)
unfolding values delete
values-delete j k [] = ground arith
values-delete j k ((i, v) ∷ env) = ground (
  arith,
  values-delete j k env,
  string_eq.equal_iff i j,
  string_eq.equal_iff i k,
  string_eq.equal_iff j k,
)

values-put_ne :
    (j k v : String) (env : Env) → (j == k) ≡ false → values k (put j v env) ≡ values k env
unfolding values put
values-put_ne j k v [] h = rw h refl
values-put_ne j k v ((i, w) ∷ env) h =
    ground (arith, values-put_ne j k v env h, string_eq.equal_iff i j, string_eq.equal_iff i k, h)

values-put_self : (k v : String) (env : Env) → values k env ≡ [] → values k (put k v env) ≡ v ∷ []
unfolding values put
values-put_self k v [] h = rw (==_refl k) refl
values-put_self k v ((i, w) ∷ env) h = elim (Bool-cases (i == k)) [
  | inl same ↦ absurd (cc (rw same at h))
  | inr other ↦ rw (other, other) (values-put_self k v env (rw other at h))
]

values-pop_all :
    (names : List String) (k : String) (env : Env)
    → values k (pop_all names env) ≡ (if contains names k then [] else values k env)
values-pop_all [] k env = refl
values-pop_all (n ∷ names) k env =
    ground (arith, values-pop_all names k (delete n env), values-delete n k env)

find-merge : (k : String) (a b : Env) → find k (merge a b) ≡ last_or (values k b) (find k a)
unfolding values
find-merge k a [] = refl
find-merge k a ((j, w) ∷ b) = elim (Bool-cases (j == k)) [
  | inl same ↦ find-merge k (put j w a) b ∙ rw (find-put, same) refl
  | inr other ↦ find-merge k (put j w a) b ∙ rw (find-put, other) refl
]

module _ {H : Type 0} (host : Host H) where
  open host use {config}

  -- each channel variable is given once, and no file form is
  record Given (env : Env) : Type 0 where
    url : values "CONTROL_NODE_URL" env ≡ config.control_url ∷ []
    token : values "THEOZOLITH_NODE_TOKEN" env ≡ config.node_token ∷ []
    ca : values "THEOZOLITH_TLS_CA" env ≡ (if config.tls_ca == "" then [] else config.tls_ca ∷ [])
    url_file : values "CONTROL_NODE_URL_FILE" env ≡ []
    token_file : values "THEOZOLITH_NODE_TOKEN_FILE" env ≡ []
    ca_file : values "THEOZOLITH_TLS_CA_FILE" env ≡ []

  abbrev with_url : Env → Env
  with_url env = put "CONTROL_NODE_URL" config.control_url (pop_all reserved_channel_env env)

  abbrev with_token : Env → Env
  with_token env = put "THEOZOLITH_NODE_TOKEN" config.node_token (with_url env)

  abbrev with_ca : Env → Env
  with_ca env = put "THEOZOLITH_TLS_CA" config.tls_ca (with_token env)

  url_lem : (env : Env) → values "CONTROL_NODE_URL" (with_token env) ≡ config.control_url ∷ []
  url_lem env =
      values-put_ne "THEOZOLITH_NODE_TOKEN" "CONTROL_NODE_URL" config.node_token (with_url env) refl
      ∙ values-put_self "CONTROL_NODE_URL" config.control_url (pop_all reserved_channel_env env)
          (values-pop_all reserved_channel_env "CONTROL_NODE_URL" env)

  other_lem :
      (k : String) (env : Env)
      → ("CONTROL_NODE_URL" == k) ≡ false
      → contains reserved_channel_env k ≡ true
      → values k (with_url env) ≡ []
  other_lem k env other reserved =
      values-put_ne "CONTROL_NODE_URL" k config.control_url (pop_all reserved_channel_env env) other
      ∙ values-pop_all reserved_channel_env k env
      ∙ rw reserved refl

  token_lem : (env : Env) → values "THEOZOLITH_NODE_TOKEN" (with_token env) ≡ config.node_token ∷ []
  token_lem env =
      values-put_self "THEOZOLITH_NODE_TOKEN" config.node_token (with_url env)
        (other_lem "THEOZOLITH_NODE_TOKEN" env refl refl)

  none_lem :
      (k : String) (env : Env)
      → ("THEOZOLITH_NODE_TOKEN" == k) ≡ false
      → ("CONTROL_NODE_URL" == k) ≡ false
      → contains reserved_channel_env k ≡ true
      → values k (with_token env) ≡ []
  none_lem k env a b reserved =
      values-put_ne "THEOZOLITH_NODE_TOKEN" k config.node_token (with_url env) a
      ∙ other_lem k env b reserved

  with_ca_ne :
      (k : String) (env : Env)
      → ("THEOZOLITH_TLS_CA" == k) ≡ false
      → values k (with_ca env) ≡ values k (with_token env)
  with_ca_ne k env other = values-put_ne "THEOZOLITH_TLS_CA" k config.tls_ca (with_token env) other

  identity-Given : (env : Env) → Given (identity host env)
  identity-Given env = elim (Bool-cases (config.tls_ca == "")) [
    | inl e ↦ rw e (record {
      url = url_lem env;
      token = token_lem env;
      ca = none_lem "THEOZOLITH_TLS_CA" env refl refl refl ∙ rw e refl;
      url_file = none_lem "CONTROL_NODE_URL_FILE" env refl refl refl;
      token_file = none_lem "THEOZOLITH_NODE_TOKEN_FILE" env refl refl refl;
      ca_file = none_lem "THEOZOLITH_TLS_CA_FILE" env refl refl refl;
    })
    | inr e ↦ rw e (record {
      url = with_ca_ne "CONTROL_NODE_URL" env refl ∙ url_lem env;
      token = with_ca_ne "THEOZOLITH_NODE_TOKEN" env refl ∙ token_lem env;
      ca =
          values-put_self "THEOZOLITH_TLS_CA" config.tls_ca (with_token env)
            (none_lem "THEOZOLITH_TLS_CA" env refl refl refl)
          ∙ rw e refl;
      url_file =
          with_ca_ne "CONTROL_NODE_URL_FILE" env refl
          ∙ none_lem "CONTROL_NODE_URL_FILE" env refl refl refl;
      token_file =
          with_ca_ne "THEOZOLITH_NODE_TOKEN_FILE" env refl
          ∙ none_lem "THEOZOLITH_NODE_TOKEN_FILE" env refl refl refl;
      ca_file =
          with_ca_ne "THEOZOLITH_TLS_CA_FILE" env refl
          ∙ none_lem "THEOZOLITH_TLS_CA_FILE" env refl refl refl;
    })
  ]

  ca_lem :
      (b : Bool) (own : Option String)
      → (if b then own else none) ≡ none
      → last_or (if b then [] else config.tls_ca ∷ []) own
        ≡ (if b then none else some config.tls_ca)
  ca_lem true own h = h
  ca_lem false own h = refl

  Given-IsSealed : (env : Env) → IsBare host → Given env → IsSealed host (child_env host env)
  Given-IsSealed env bare g = record {
    url = find-merge "CONTROL_NODE_URL" host.environ env ∙ rw g.url refl;
    token = find-merge "THEOZOLITH_NODE_TOKEN" host.environ env ∙ rw g.token refl;
    ca =
        find-merge "THEOZOLITH_TLS_CA" host.environ env
        ∙ rw g.ca (ca_lem (config.tls_ca == "") (find "THEOZOLITH_TLS_CA" host.environ) bare.ca);
    url_file = find-merge "CONTROL_NODE_URL_FILE" host.environ env ∙ rw g.url_file bare.url_file;
    token_file =
        find-merge "THEOZOLITH_NODE_TOKEN_FILE" host.environ env ∙ rw g.token_file bare.token_file;
    ca_file = find-merge "THEOZOLITH_TLS_CA_FILE" host.environ env ∙ rw g.ca_file bare.ca_file;
  }

  sealed-Given :
      (s : WireStack) (env env' : Env)
      → (config.control_url == "") ≡ false
      → sealed host s env ≡ ok env'
      → Given env'
  sealed-Given s env env' provisioned h =
      if_lem _ (host.scheme config.control_url == "https" && config.tls_ca == "")
        (rw provisioned at h)
    where
      if_lem :
          (e : Fault) (b : Bool)
          → (if b then err e else ok (identity host env)) ≡ ok env'
          → Given env'
      if_lem e true h = cc
      if_lem e false h =
          subst Given (ap (λ (r : Result Fault Env). elim r [ ok v ↦ v | err x ↦ env' ]) h)
            (identity-Given env)

  pub process_env-IsSealed :
      (s : WireStack) (env : Env) (w u : Machine H)
      → config.control_url ≢ ""
      → IsBare host
      → process_env host s w ≡ (ok env, u)
      → IsSealed host (child_env host env)
  unfolding process_env lift
  process_env-IsSealed s env w u provisioned bare h =
      bind-elim (driver_env host s) _ w h (λ own v _ e. Given-IsSealed env bare (
        sealed-Given s (with_secret_files host s own) env
          (==_false_of_ne config.control_url "" provisioned)
          (ap (λ (p : Result Fault Env × Machine H). p.0) e)))
