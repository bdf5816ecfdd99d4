-- ===== src/Service/Accepted.antt =====
-- service.py: what an accepted telemetry message has gone through.
use continuityos.Prelude.{
  ℕ, String, List, [], ◌∷◌, ◌++◌, Bool, true, false, Option, none, some, ◌≡◌, refl, subst, ap, ◌∙◌,
  arith, Option-cases, Bool-cases, is_some, inl, inr,
}
use continuityos.PersistentState.{
  File, Result, ok, err, Error, unreadable, unicode_error, not_an_object, idempotency_conflict,
  no_response, attribute_error, type_error, os_error,
}
use continuityos.Evidence.{
  EvidenceLedger, EvidenceRecord, Request, append, append_atomic, existing, last_hash, new_record,
}
use continuityos.Service.{
  Service, Checked, rejected, failed, observed, Message, AppState, accepted, raised, reply_of,
  save_idempotency, saved_reply, respond, record_observation, accept_observed, observe,
  accept_operator_payload, ledger_request, claim,
}

-- A returned record stands at the end of the ledger, which had a last hash for it to follow.
pub append-some :
    {P : Type 0} (ledger : EvidenceLedger P) (w : Bool) (q : Request P) (f : Option (List ℕ))
    (r : EvidenceRecord P)
    → (append ledger w q f).0 ≡ some r
    → (h : String) × (last_hash ledger f ≡ some h)
      × (r ≡ new_record ledger q h)
      × ((append ledger w q f).1 ≡ some (existing ledger f ++ (ledger.encode r ++ 10 ∷ [])))
unfolding append append_atomic
append-some ledger false q f r e = elim (Option-cases (last_hash ledger f)) [
  | inl n ↦ absurd (ground arith)
  | inr (h, l) ↦ absurd (ground arith)
]
append-some ledger true q f r e = elim (Option-cases (last_hash ledger f)) [
  | inl n ↦ absurd (ground arith)
  | inr (h, l) ↦ (h, l, ground arith, ground arith)
]

-- An append that returns no record leaves the file alone.
pub append-none :
    {P : Type 0} (ledger : EvidenceLedger P) (w : Bool) (q : Request P) (f : Option (List ℕ))
    → (append ledger w q f).0 ≡ none
    → (append ledger w q f).1 ≡ f
unfolding append append_atomic
append-none ledger false q f e = elim (Option-cases (last_hash ledger f)) [
  | inl n ↦ ground arith
  | inr (h, l) ↦ ground arith
]
append-none ledger true q f e = elim (Option-cases (last_hash ledger f)) [
  | inl n ↦ ground arith
  | inr (h, l) ↦ absurd (ground arith)
]

pub reply_of-accepted : {O : Type 0} (e : Error) (o : O) → reply_of e ≡ accepted o → ⊥
reply_of-accepted unreadable o h = cc
reply_of-accepted unicode_error o h = cc
reply_of-accepted not_an_object o h = cc
reply_of-accepted idempotency_conflict o h = cc
reply_of-accepted no_response o h = cc
reply_of-accepted attribute_error o h = cc
reply_of-accepted type_error o h = cc
reply_of-accepted os_error o h = cc

module _ {M O P : Type 0} (service : Service M O P) where
  saved_reply-accepted :
      (o1 o : O) (saved : Result (Unit {0}))
      → saved_reply service o1 saved ≡ accepted o
      → (saved ≡ ok tt) × (o1 ≡ o)
  saved_reply-accepted o1 o (ok tt) h = (refl, cc)
  saved_reply-accepted o1 o (err e) h = absurd (reply_of-accepted e o h)

  -- The message has this observation.
  abbrev pub Observes : Message M → O → Type 0
  Observes m o =
      (is_some service.operator_webhook_secret ≡ true)
      × (observe service service.operator_webhook_secret m.content ≡ observed o)

  pub accept-observed :
      (m : Message M) (key fingerprint : Option String) (o : O) (s : AppState)
      → Observes m o
      → accept_operator_payload service m key fingerprint s
        ≡ record_observation service m key fingerprint o (claim service m o s.file) s.ledger_file
  unfolding accept_operator_payload accept_observed
  accept-observed m key fingerprint o s (h, k) = rw (h, k) refl

  -- How a message came to be accepted.
  pub record Accepted (m : Message M) (key fingerprint : Option String) (o : O) (s : AppState)
      : Type 0 where
    pub observes : Observes m o
    pub claimed : (claim service m o s.file).0 ≡ ok true
    pub entry : EvidenceRecord P
    pub appended :
        (append service.ledger m.append_written (ledger_request service m o) s.ledger_file).0
        ≡ some entry
    pub saved :
        (save_idempotency service m.save_written key fingerprint o (claim service m o s.file).1).0
        ≡ ok tt

  respond-accepted :
      (m : Message M) (key fingerprint : Option String) (o1 o : O) (f : File)
      (appended : Option (EvidenceRecord P) × Option (List ℕ))
      → (respond service m key fingerprint o1 f appended).0 ≡ accepted o
      → (r : EvidenceRecord P) × (appended.0 ≡ some r)
        × (o1 ≡ o)
        × ((save_idempotency service m.save_written key fingerprint o1 f).0 ≡ ok tt)
  unfolding respond
  respond-accepted m key fingerprint o1 o f (none, l) h = cc
  respond-accepted m key fingerprint o1 o f (some r, l) h =
      let (s, e) = saved_reply-accepted o1 o _ h in (r, refl, e, s)

  record-accepted :
      (m : Message M) (key fingerprint : Option String) (o1 o : O) (claimed : Result Bool × File)
      (l : Option (List ℕ))
      → (record_observation service m key fingerprint o1 claimed l).0 ≡ accepted o
      → (claimed.0 ≡ ok true)
        × (r : EvidenceRecord P) × ((append service.ledger m.append_written
              (ledger_request service m o1)
              l).0
            ≡ some r)
        × (o1 ≡ o)
        × ((save_idempotency service m.save_written key fingerprint o1 claimed.1).0 ≡ ok tt)
  unfolding record_observation
  record-accepted m key fingerprint o1 o (err e, f) l h = cc
  record-accepted m key fingerprint o1 o (ok false, f) l h = cc
  record-accepted m key fingerprint o1 o (ok true, f) l h =
      let (r, a, e, s) = respond-accepted m key fingerprint o1 o f _ h in (refl, r, a, e, s)

  observed-accepted :
      (m : Message M) (key fingerprint : Option String) (o : O) (oo : Checked O) (s : AppState)
      → is_some service.operator_webhook_secret ≡ true
      → observe service service.operator_webhook_secret m.content ≡ oo
      → (accept_observed service m key fingerprint oo s).0 ≡ accepted o
      → Accepted m key fingerprint o s
  unfolding accept_observed
  observed-accepted m key fingerprint o rejected s i e h = absurd (cc)
  observed-accepted m key fingerprint o failed s i e h = absurd (cc)
  observed-accepted m key fingerprint o (observed o1) s i e h =
      let (c, r, a, same, v) = record-accepted m key fingerprint o1 o _ s.ledger_file h in
      subst (λ x. Accepted m key fingerprint x s) same
        (record { observes = (i, e); claimed = c; entry = r; appended = a; saved = v })

  pub accept-Accepted :
      (m : Message M) (key fingerprint : Option String) (o : O) (s : AppState)
      → (accept_operator_payload service m key fingerprint s).0 ≡ accepted o
      → Accepted m key fingerprint o s
  unfolding accept_operator_payload
  accept-Accepted m key fingerprint o s h =
      elim (Bool-cases (is_some service.operator_webhook_secret)) [
        | inl i ↦ observed-accepted m key fingerprint o _ s i refl (ground arith)
        | inr i ↦ absurd (ground arith)
      ]

  pub record-claimed :
      (m : Message M) (key fingerprint : Option String) (o : O) (claimed : Result Bool × File)
      (l : Option (List ℕ))
      → claimed.0 ≡ ok true
      → record_observation service m key fingerprint o claimed l
        ≡ respond service m key fingerprint o claimed.1
            (append service.ledger m.append_written (ledger_request service m o) l)
  unfolding record_observation
  record-claimed m key fingerprint o (err e, f) l h = absurd (cc)
  record-claimed m key fingerprint o (ok false, f) l h = absurd (cc)
  record-claimed m key fingerprint o (ok true, f) l h = refl

  pub respond-some :
      (m : Message M) (key fingerprint : Option String) (o : O) (f : File)
      (appended : Option (EvidenceRecord P) × Option (List ℕ)) (r : EvidenceRecord P)
      → appended.0 ≡ some r
      → let saved = save_idempotency service m.save_written key fingerprint o f in
        respond service m key fingerprint o f appended
        ≡ (saved_reply service o saved.0, record { file = saved.1; ledger_file = appended.1 })
  unfolding respond
  respond-some m key fingerprint o f (none, l) r h = absurd (cc)
  respond-some m key fingerprint o f (some r', l) r h = refl

  pub respond-none :
      (m : Message M) (key fingerprint : Option String) (o : O) (f : File)
      (appended : Option (EvidenceRecord P) × Option (List ℕ))
      → appended.0 ≡ none
      → respond service m key fingerprint o f appended
        ≡ (raised, record { file = f; ledger_file = appended.1 })
  unfolding respond
  respond-none m key fingerprint o f (none, l) h = refl
  respond-none m key fingerprint o f (some r', l) h = absurd (cc)

  -- The state after an accepted message.
  pub Accepted-state :
      (m : Message M) (key fingerprint : Option String) (o : O) (s : AppState)
      → Accepted m key fingerprint o s
      → let file = (claim service m o s.file).1 in
        let saved = save_idempotency service m.save_written key fingerprint o file in
        let appended =
          append service.ledger m.append_written (ledger_request service m o) s.ledger_file in
        (accept_operator_payload service m key fingerprint s).1
        ≡ record { file = saved.1; ledger_file = appended.1 }
  Accepted-state m key fingerprint o s a =
      ap (λ r. r.1)
        (accept-observed m key fingerprint o s a.observes
          ∙ record-claimed m key fingerprint o _ s.ledger_file a.claimed
          ∙ respond-some m key fingerprint o _ _ a.entry a.appended)
