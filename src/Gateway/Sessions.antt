-- ===== src/Gateway/Sessions.antt =====
-- Changes of the sessions of the gateway that are within one repository.
use regstair.Base.{
  ℕ, ◌+◌, ◌≤◌, ◌≡◌, ◌≢◌, refl, sym, ap, ◌∙◌, inl, inr, none, some, arith, Bool-cases,
}
use regstair.Strings.{Text, text_eq, text_beq, text_beq_iff}
use regstair.Strings.Search.{decimal, decimal_injective}
use regstair.Maps
use regstair.Maps.{Map, get-put, get-delete}
use regstair.Gateway.Types.{UploadSession, State}

abbrev pub Sessions : Type 0
Sessions = Map Text UploadSession

-- Every session stands under the number of a start.
pub record IsNumbered (next_id : ℕ) (m : Sessions) : Type 0 where
  pub numbered :
      (id : Text) (session : UploadSession)
      → Maps.get m id ≡ some session
      → (n : ℕ) × (n ≤ next_id) × (id ≡ decimal n)

-- The sessions of the other repositories are those that were there: none is gone, none is changed,
-- and none is new.
pub record KeepsOthers (repository : Text) (m m' : Sessions) : Type 0 where
  pub kept :
      (id : Text) (session : UploadSession)
      → Maps.get m id ≡ some session
      → session.repository ≢ repository
      → Maps.get m' id ≡ some session
  pub only :
      (id : Text) (session : UploadSession)
      → Maps.get m' id ≡ some session
      → session.repository ≢ repository
      → Maps.get m id ≡ some session

-- Whatever has the identifier is a session of the repository.
abbrev IsOwned : Text → Sessions → Text → Type 0
IsOwned repository m id =
    (session : UploadSession) → Maps.get m id ≡ some session → session.repository ≡ repository

IsOwned-by :
    (repository : Text) (m : Sessions) (id : Text) (session : UploadSession)
    → Maps.get m id ≡ some session
    → session.repository ≡ repository
    → IsOwned repository m id
IsOwned-by repository m id session there own other h =
    let e : some other ≡ some session = sym h ∙ there in
    let same : other ≡ session = cc in rw same own

module _ (repository : Text) where
  put-KeepsOthers :
      (m : Sessions) (id : Text) (new : UploadSession)
      → IsOwned repository m id
      → new.repository ≡ repository
      → KeepsOthers repository m (Maps.put m id new)
  put-KeepsOthers m id new owned own_new = record {
    only = λ key session h other. elim (Bool-cases (text_beq id key)) [
      | inl e ↦
          let stored : some new ≡ some session = sym (get-put m id key new ∙ rw e refl) ∙ h in
          let same : new ≡ session = cc in
          absurd (other (ap (λ (x : UploadSession). x.repository) (sym same) ∙ own_new))
      | inr e ↦ sym (get-put m id key new ∙ rw e refl) ∙ h
    ];
    kept = λ key session h other. elim (Bool-cases (text_beq id key)) [
      | inl e ↦ absurd (other (owned session (ap (Maps.get m) ((text_beq_iff id key).0 e) ∙ h)))
      | inr e ↦ get-put m id key new ∙ rw e h
    ];
  }

  delete-KeepsOthers :
      (m : Sessions) (id : Text)
      → IsOwned repository m id
      → KeepsOthers repository m (Maps.delete m id)
  delete-KeepsOthers m id owned = record {
    only = λ key session h other. elim (Bool-cases (text_beq id key)) [
      | inl e ↦
          let gone : Maps.get (Maps.delete m id) key ≡ none = get-delete m id key ∙ rw e refl in
          absurd (cc)
      | inr e ↦ sym (get-delete m id key ∙ rw e refl) ∙ h
    ];
    kept = λ key session h other. elim (Bool-cases (text_beq id key)) [
      | inl e ↦ absurd (other (owned session (ap (Maps.get m) ((text_beq_iff id key).0 e) ∙ h)))
      | inr e ↦ get-delete m id key ∙ rw e h
    ];
  }

put-IsNumbered :
    (next_id next_id' n : ℕ) (m : Sessions) (new : UploadSession)
    → IsNumbered next_id m
    → next_id ≤ next_id'
    → n ≤ next_id'
    → IsNumbered next_id' (Maps.put m (decimal n) new)
put-IsNumbered next_id next_id' n m new wf more small = record {
  numbered = λ key session h. elim (Bool-cases (text_beq (decimal n) key)) [
    | inl e ↦ (n, small, sym ((text_beq_iff (decimal n) key).0 e))
    | inr e ↦
        let (k, below, printed) =
          wf.numbered key session (sym (get-put m (decimal n) key new ∙ rw e refl) ∙ h) in
        (k, omega (arith, below, more), printed)
  ];
}

delete-IsNumbered :
    (next_id : ℕ) (m : Sessions) (id : Text)
    → IsNumbered next_id m
    → IsNumbered next_id (Maps.delete m id)
delete-IsNumbered next_id m id wf = record {
  numbered = λ key session h. elim (Bool-cases (text_beq id key)) [
    | inl e ↦
        let gone : Maps.get (Maps.delete m id) key ≡ none = get-delete m id key ∙ rw e refl in
        absurd (cc)
    | inr e ↦ wf.numbered key session (sym (get-delete m id key ∙ rw e refl) ∙ h)
  ];
}

module _ {W : Type 0} where
  -- What a request for a repository does to the sessions.
  pub record IsStep (repository : Text) (st st' : State W) : Type 0 where
    pub numbered : IsNumbered st'.next_id st'.uploads
    pub kept : KeepsOthers repository st.uploads st'.uploads

  pub same-IsStep :
      (repository : Text) (st st' : State W)
      → IsNumbered st.next_id st.uploads
      → st'.uploads ≡ st.uploads
      → st'.next_id ≡ st.next_id
      → IsStep repository st st'
  same-IsStep repository st st' wf same_uploads same_next = record {
    numbered = rw (same_uploads, same_next) wf;
    kept = record {
      kept = λ id session h other. ap (λ m. Maps.get m id) same_uploads ∙ h;
      only = λ id session h other. sym (ap (λ m. Maps.get m id) same_uploads) ∙ h;
    };
  }

  -- The session under an identifier is replaced.
  pub put-IsStep :
      (repository : Text) (st st' : State W) (id : Text) (session new : UploadSession)
      → IsNumbered st.next_id st.uploads
      → Maps.get st.uploads id ≡ some session
      → session.repository ≡ repository
      → new.repository ≡ repository
      → st'.uploads ≡ Maps.put st.uploads id new
      → st'.next_id ≡ st.next_id
      → IsStep repository st st'
  put-IsStep repository st st' id session new wf there own own_new replaced same_next =
      let (n, small, printed) = wf.numbered id session there in
      record {
        numbered =
            rw (replaced, same_next, printed)
              (put-IsNumbered st.next_id st.next_id n st.uploads new wf (omega arith) small);
        kept = rw replaced (
            put-KeepsOthers repository st.uploads id new
              (IsOwned-by repository st.uploads id session there own) own_new);
      }

  pub delete-IsStep :
      (repository : Text) (st st' : State W) (id : Text) (session : UploadSession)
      → IsNumbered st.next_id st.uploads
      → Maps.get st.uploads id ≡ some session
      → session.repository ≡ repository
      → st'.uploads ≡ Maps.delete st.uploads id
      → st'.next_id ≡ st.next_id
      → IsStep repository st st'
  delete-IsStep repository st st' id session wf there own removed same_next = record {
    numbered = rw (removed, same_next) (delete-IsNumbered st.next_id st.uploads id wf);
    kept = rw removed (
        delete-KeepsOthers repository st.uploads id
          (IsOwned-by repository st.uploads id session there own));
  }

  pub IsStep-trans :
      (repository : Text) (st mid st' : State W)
      → IsStep repository st mid
      → IsStep repository mid st'
      → IsStep repository st st'
  IsStep-trans repository st mid st' first second = record {
    numbered = second.numbered;
    kept = record {
      kept = λ id session h other.
          second.kept.kept id session (first.kept.kept id session h other) other;
      only = λ id session h other.
          first.kept.only id session (second.kept.only id session h other) other;
    };
  }

  -- A new session takes a number that no session has.
  pub start-IsStep :
      (repository : Text) (st st' : State W) (new : UploadSession)
      → IsNumbered st.next_id st.uploads
      → new.repository ≡ repository
      → st'.next_id ≡ st.next_id + 1
      → st'.uploads ≡ Maps.put st.uploads (decimal (st.next_id + 1)) new
      → IsStep repository st st'
  start-IsStep repository st st' new wf own_new following added = record {
    numbered =
        rw (following, added)
          (put-IsNumbered st.next_id (st.next_id + 1) (st.next_id + 1) st.uploads new wf
            (omega arith) (omega arith));
    kept = rw added (
        put-KeepsOthers repository st.uploads (decimal (st.next_id + 1)) new
          (λ session h.
            let (n, small, printed) = wf.numbered (decimal (st.next_id + 1)) session h in
            absurd (omega (arith, small, decimal_injective (st.next_id + 1) n printed)))
          own_new);
  }
