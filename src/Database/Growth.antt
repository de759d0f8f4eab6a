-- ===== src/Database/Growth.antt =====
-- How the statements of internal/metadata/sqlite_security.go change the tables of tokens
-- and sessions.
use regstair.Base.{◌≡◌, refl, Bool, List, [], ◌∷◌, ◌++◌, arith}
use regstair.Strings.{Text, text_eq}
use regstair.Effects.Keeps.{IsPreorder, Keeps, KeepsAlways}
use regstair.Metadata.Types.{Time, User}
use regstair.Database.Records.{DockerToken, WebSession}
use regstair.Database.Tables.{
  Database, Faults, select, change, update_where, insert_user, write_user,
}
use regstair.Database.Rules.{Keeps-checked, Keeps-constrained, KeepsAlways-checked}
use regstair.Database.Rows.{RowsGrow, same_rows, RowsGrow-trans, RowsGrow-append, RowsGrow-update}
use regstair.Database.Accounts.{revoke_session, revoke_token, revoke_all}

abbrev pub TokensGrow : List DockerToken → List DockerToken → Type 0
TokensGrow =
    RowsGrow (λ (t : DockerToken). t.token_hash) (λ (t : DockerToken). t.user_id)
      (λ (t : DockerToken). t.revoked_at)

abbrev pub SessionsGrow : List WebSession → List WebSession → Type 0
SessionsGrow =
    RowsGrow (λ (s : WebSession). s.token_hash) (λ (s : WebSession). s.user_id)
      (λ (s : WebSession). s.revoked_at)

pub record Grows (db db' : Database) : Type 0 where
  pub tokens : TokensGrow db.docker_tokens db'.docker_tokens
  pub sessions : SessionsGrow db.web_sessions db'.web_sessions

pub same_tables :
    (db db' : Database)
    → db'.docker_tokens ≡ db.docker_tokens
    → db'.web_sessions ≡ db.web_sessions
    → Grows db db'
same_tables db db' same_tokens same_sessions = record {
  tokens = same_rows _ _ _ _ _ same_tokens;
  sessions = same_rows _ _ _ _ _ same_sessions;
}

pub Grows-order : IsPreorder Grows
Grows-order = record {
  reflexive = λ db. same_tables db db refl refl;
  transitive = λ u v w first second. record {
    tokens = RowsGrow-trans _ _ _ _ _ _ first.tokens second.tokens;
    sessions = RowsGrow-trans _ _ _ _ _ _ first.sessions second.sessions;
  };
}

pub Grows-select :
    {A : Type 0} → (faults : Faults) (f : Database → A) → Keeps Grows (select faults f)
unfolding select
Grows-select faults f =
    Keeps-checked faults.read_error _ (record { at = λ db a h. Grows-order.reflexive db })

-- A change of the tables that is known.
pub Grows-change :
    (faults : Faults) (f : Database → Database)
    → ((db : Database) → Grows db (f db))
    → Keeps Grows (change faults f)
unfolding change
Grows-change faults f grows =
    Keeps-checked faults.write_error _ (record { at = λ db a h. grows db })

pub change_always :
    (faults : Faults) (f : Database → Database)
    → ((db : Database) → Grows db (f db))
    → KeepsAlways Grows (change faults f)
unfolding change
change_always faults f grows =
    KeepsAlways-checked Grows-order faults.write_error _ (record { at = λ db. grows db })

revoke-SessionsGrow :
    (q : WebSession → Bool) (at : Time) (rows : List WebSession)
    → SessionsGrow rows (update_where q (revoke_session at) rows)
revoke-SessionsGrow q at rows =
    RowsGrow-update _ _ _ q (revoke_session at) rows (λ row. ground arith) (λ row. ground arith)
      (λ row h. ground (arith, h))

revoke-TokensGrow :
    (q : DockerToken → Bool) (at : Time) (rows : List DockerToken)
    → TokensGrow rows (update_where q (revoke_token at) rows)
revoke-TokensGrow q at rows =
    RowsGrow-update _ _ _ q (revoke_token at) rows (λ row. ground arith) (λ row. ground arith)
      (λ row h. ground (arith, h))

-- The UPDATEs of the sessions and of the tokens that are asked for.
pub revoke_sessions_Grows :
    (q : WebSession → Bool) (at : Time) (db : Database)
    → Grows db (record db { web_sessions = update_where q (revoke_session at) db.web_sessions })
revoke_sessions_Grows q at db = record {
  tokens = same_rows _ _ _ _ _ refl;
  sessions = revoke-SessionsGrow q at db.web_sessions;
}

pub revoke_tokens_Grows :
    (q : DockerToken → Bool) (at : Time) (db : Database)
    → Grows db (record db { docker_tokens = update_where q (revoke_token at) db.docker_tokens })
revoke_tokens_Grows q at db = record {
  tokens = revoke-TokensGrow q at db.docker_tokens;
  sessions = same_rows _ _ _ _ _ refl;
}

pub revoke_all-Grows :
    (user_id : Text) (at : Time) (db : Database) → Grows db (revoke_all user_id at db)
unfolding revoke_all
revoke_all-Grows user_id at db = record {
  tokens = revoke-TokensGrow _ at db.docker_tokens;
  sessions = revoke-SessionsGrow _ at db.web_sessions;
}

pub token_added_Grows :
    (token : DockerToken) (db : Database)
    → Grows db (record db { docker_tokens = db.docker_tokens ++ token ∷ [] })
token_added_Grows token db = record {
  tokens = RowsGrow-append _ _ _ db.docker_tokens (token ∷ []);
  sessions = same_rows _ _ _ _ _ refl;
}

pub session_added_Grows :
    (session : WebSession) (db : Database)
    → Grows db (record db { web_sessions = db.web_sessions ++ session ∷ [] })
session_added_Grows session db = record {
  tokens = same_rows _ _ _ _ _ refl;
  sessions = RowsGrow-append _ _ _ db.web_sessions (session ∷ []);
}

-- The statements on the users.
module _ (faults : Faults) where
  pub insert_user-Grows : (user : User) → Keeps Grows (insert_user faults user)
  unfolding insert_user
  insert_user-Grows user =
      Keeps-constrained _ _ _ (Grows-change faults _ (λ db. same_tables db _ refl refl))

  pub write_user-Grows : (p : User → Bool) (user : User) → Keeps Grows (write_user faults p user)
  unfolding write_user
  write_user-Grows p user =
      Keeps-constrained _ _ _ (Grows-change faults _ (λ db. same_tables db _ refl refl))
