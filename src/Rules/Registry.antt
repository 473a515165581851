-- ===== src/Rules/Registry.antt =====
-- ledger_daemon/rules.py: `AnalystRegistry`. The state is its three tables: the one row of the registry,
-- the trusted analysts, and the capabilities that have been used, by nonce. Random texts and the
-- clock, in seconds, are arguments.
pub mod Capabilities
pub mod Spending
pub mod Once
use ledger_daemon.Prelude.{
  ℕ, ◌==◌, String, Bool, true, false, ◌&&◌, ◌||◌, not, Option, none, some, List, [], ◌∷◌, any, leb,
  ltb, str_eq, is_empty,
}
use ledger_daemon.Prelude.Dict.{Dict, lookup, insert}
use ledger_daemon.Prelude.Attempt.{Attempt, raised, returned, ◌>>=◌, ◌>>◌, raise_if}
use ledger_daemon.Rules.{HumanAction, RuleError, HumanAuthority, Outside, same_action}
use ledger_daemon.Rules.Patterns.{count_chars, is_id, is_utc}
use ledger_daemon.Rules.Proposal.{human_actor}

pub record Analyst : Type 0 where
  pub actions : List HumanAction
  pub credential_salt : String
  pub credential_hash : String
  pub active : Bool

-- A row of `used_human_capabilities`.
pub record Used : Type 0 where
  pub actor_id : String
  pub action : HumanAction
  pub subject_id : String
  pub subject_version : ℕ

pub record Registry : Type 0 where
  pub registry_id : String
  pub secret : String
  pub trusted_analysts : Dict Analyst
  pub used_capabilities : Dict Used

-- What `bootstrap` is given for an analyst: the credential and the actions. The source sorts the set of
-- the actions, which are only searched later, and takes the id of the registry from the secret.
abbrev pub Definition : Type 0
Definition = String × List HumanAction

abbrev pub same_used : Used → Used → Bool
same_used u v =
    (str_eq u.actor_id v.actor_id && same_action u.action v.action)
    && (str_eq u.subject_id v.subject_id && u.subject_version == v.subject_version)

abbrev pub is_used : Option Used → Bool
is_used none = false
is_used (some u) = true

-- The insertion into `used_human_capabilities`.
abbrev pub spend : Registry → String → Used → Registry
spend r nonce used = record r { used_capabilities = insert nonce used r.used_capabilities }

-- `row == expected`.
abbrev pub matches : Used → Option Used → Bool
matches expected none = false
matches expected (some row) = same_used row expected

abbrev pub is_bootstrapped : Option Registry → Bool
is_bootstrapped none = false
is_bootstrapped (some r) = true

abbrev pub some_or {ℓ} : {A : Type ℓ} → RuleError → Option A → Attempt RuleError A
some_or problem none = raised problem
some_or problem (some a) = returned a

abbrev pub may : HumanAction → Analyst → Bool
may action analyst = analyst.active && any (same_action action) analyst.actions

abbrev pub may_row : HumanAction → Option Analyst → Bool
may_row action none = false
may_row action (some analyst) = may action analyst

module _ (P : Outside) where
  -- The loop of `bootstrap` over the analysts; `salts` gives the random salt of each.
  unfoldable pub normalized :
      (String → String) → Dict Analyst → Dict Definition → Attempt RuleError (Dict Analyst)
  normalized salts done [] = returned done
  normalized salts done ((actor_id, (credential, actions)) ∷ analysts) =
      human_actor P actor_id >>= λ actor.
      raise_if (ltb (count_chars credential) 12)
        (RuleError.value_error "analyst credential must be a secret of at least 12 characters")
      >> (raise_if (is_empty actions)
            (RuleError.value_error "analyst actions must be a non-empty immutable tuple")
          >> normalized salts
              (insert actor
                (record {
                  actions = actions;
                  credential_salt = salts actor_id;
                  credential_hash = P.pbkdf2 credential (salts actor_id);
                  active = true;
                })
                done)
              analysts)

  unfoldable pub bootstrap :
      (String → String)
      → String
      → String
      → Dict Definition
      → Option Registry
      → Attempt RuleError Registry
  unfolding normalized
  bootstrap salts secret registry_id analysts existing = do
    raise_if (is_empty analysts) (RuleError.value_error "trusted human analysts are required")
    trusted ← normalized salts [] analysts
    raise_if (is_bootstrapped existing)
        (RuleError.value_error "analyst registry is already bootstrapped")
    returned (record {
      registry_id = registry_id;
      secret = secret;
      trusted_analysts = trusted;
      used_capabilities = [];
    })

  -- `_parse_utc`.
  unfoldable pub parse_utc : String → Attempt RuleError ℕ
  parse_utc value = do
    raise_if (not (is_utc P.is_decimal value))
        (RuleError.value_error "authority expiry must be UTC to whole-second precision")
    some_or (RuleError.value_error "invalid authority expiry") (P.strptime value)

  abbrev pub signature_of : Registry → HumanAuthority → String
  signature_of r a =
      P.hmac r.secret a.actor_id a.action r.registry_id a.subject_id a.subject_version a.nonce
        a.expires_at

  -- `HumanAuthority.__post_init__`.
  unfoldable pub is_authority : HumanAuthority → Bool
  is_authority a =
      not (
        any (str_eq "")
          (a.actor_id ∷ a.registry_id ∷ a.subject_id ∷ a.nonce ∷ a.expires_at ∷ a.signature ∷ []))
      && ltb 0 a.subject_version

  unfoldable pub issue :
      Registry
      → ℕ
      → String
      → String
      → String
      → HumanAction
      → String
      → ℕ
      → String
      → Attempt RuleError HumanAuthority
  unfolding parse_utc is_authority
  issue r now nonce actor_id credential action subject_id subject_version expires_at = do
    analyst ←
        some_or (RuleError.value_error "unknown human identity")
          (lookup actor_id r.trusted_analysts)
    raise_if (not (str_eq (P.pbkdf2 credential analyst.credential_salt) analyst.credential_hash))
        (RuleError.value_error "invalid human credential")
    raise_if (not (may action analyst))
        (RuleError.value_error "human identity is not authorized for this action")
    raise_if (not (is_id subject_id)) (RuleError.value_error "authority subject is required")
    raise_if (subject_version == 0)
        (RuleError.value_error "authority subject version must be positive")
    expiry ← parse_utc expires_at
    raise_if (leb expiry now) (RuleError.value_error "human authority has expired")
    let authority : HumanAuthority = record {
      actor_id = actor_id;
      action = action;
      registry_id = r.registry_id;
      subject_id = subject_id;
      subject_version = subject_version;
      nonce = nonce;
      expires_at = expires_at;
      signature =
          P.hmac r.secret actor_id action r.registry_id subject_id subject_version nonce expires_at;
    }
    raise_if (not (is_authority authority)) (RuleError.value_error "invalid human authority")
    returned authority

  -- `_verify`.
  unfoldable pub verify :
      Registry → ℕ → HumanAuthority → HumanAction → String → ℕ → Attempt RuleError String
  unfolding parse_utc
  verify r now a action subject_id subject_version = do
    raise_if (not (same_action a.action action) || not (str_eq a.registry_id r.registry_id))
        (RuleError.value_error "human authority has the wrong scope or registry")
    raise_if (not (str_eq a.subject_id subject_id) || not (a.subject_version == subject_version))
        (RuleError.value_error "human authority has the wrong subject or version")
    expiry ← parse_utc a.expires_at
    raise_if (leb expiry now) (RuleError.value_error "human authority has expired")
    raise_if
        (not (may_row action (lookup a.actor_id r.trusted_analysts))
          || not (str_eq a.signature (signature_of r a)))
        (RuleError.value_error "invalid or revoked human authority")
    returned a.actor_id

  -- `_verify_and_consume`: the nonce is the primary key of the used capabilities.
  unfoldable pub verify_and_consume :
      Registry
      → ℕ
      → HumanAuthority
      → HumanAction
      → String
      → ℕ
      → Attempt RuleError (String × Registry)
  unfolding verify
  verify_and_consume r now a action subject_id subject_version = do
    actor ← verify r now a action subject_id subject_version
    raise_if (is_used (lookup a.nonce r.used_capabilities))
        (RuleError.value_error "human authority capability has already been used")
    returned (
      actor,
      spend r a.nonce (record {
        actor_id = actor;
        action = action;
        subject_id = subject_id;
        subject_version = subject_version;
      }),
    )

  unfoldable pub verify_consumed :
      Registry → ℕ → HumanAuthority → HumanAction → String → ℕ → Attempt RuleError String
  unfolding verify
  verify_consumed r now a action subject_id subject_version = do
    actor ← verify r now a action subject_id subject_version
    let expected : Used = record {
      actor_id = actor;
      action = action;
      subject_id = subject_id;
      subject_version = subject_version;
    }
    raise_if (not (matches expected (lookup a.nonce r.used_capabilities)))
        (RuleError.value_error "human authority capability was not transactionally consumed")
    returned actor
