-- ===== src/Proof/Prover/Timed.antt =====
-- The times of the revocation states that a prover makes, and those that it tells the verifier.
use instnt_aries_vcx.Base.{
  ℕ, String, ◌≡◌, refl, sym, ◌∙◌, Bool, true, false, Option, none, some, List, [], ◌∷◌, is_some, ok,
  err, Ensures, Map, lookup, insert, contains_key, contains_key-lookup, lookup-insert,
  lookup-inserted, lookup-insert_new, next-Ensures, const-Ensures, and_then, lift, ◌>>=◌,
  weaken-Ensures, pure, ◌==◌, if◌then◌else◌, arith,
}
use instnt_aries_vcx.Errors.{VcxResult}
use instnt_aries_vcx.Anoncreds.Request.{PresentationRequest}
use instnt_aries_vcx.Anoncreds.Selection.{SelectedCredentials, SelectedCredentialForReferent}
use instnt_aries_vcx.Runtime.{Runtime, Vcx}
use instnt_aries_vcx.Proof.Prover.Build.{
  CredInfoProver, RevocationStates, Stepped, revocation_of, timed, with_timestamp, create_state,
  add_new, add_for, add_state, add_states, build_rev_states_json, credential_def_identifiers,
  infos_of, info_of, get_revocation_interval,
}

module _ (R : Runtime) where
  open R use {World, CredentialRevocationState}

  -- The states of a registry, of which there is one, are for this time.
  abbrev pub IsAt : Option (List (ℕ × CredentialRevocationState)) → Option ℕ → Type 0
  IsAt (some ((n, s) ∷ [])) (some t) = n ≡ t
  IsAt _ _ = ⊥

  abbrev Same : Option (List (ℕ × CredentialRevocationState)) → Option ℕ → Type 0
  Same none t = t ≡ none
  Same (some l) t = IsAt (some l) t

  abbrev Agree : RevocationStates R → Map ℕ → Type 0
  Agree states timestamps = (k : String) → Same (lookup k states) (lookup k timestamps)

  abbrev Extends : RevocationStates R → RevocationStates R → Type 0
  Extends s s' =
      (k : String) (l : List (ℕ × CredentialRevocationState))
      → lookup k s ≡ some l
      → lookup k s' ≡ some l

  abbrev StampedFor : Option (String × ℕ × String) → RevocationStates R → Option ℕ → Type 0
  StampedFor none states t = Unit
  StampedFor (some (g, _, _)) states t = IsAt (lookup g states) t

  -- A credential with a registry, an index and tails tells the time of its registry's state.
  abbrev pub IsStamped : RevocationStates R → CredInfoProver → Type 0
  IsStamped states info = StampedFor (revocation_of info) states info.timestamp

  abbrev pub AllStamped : RevocationStates R → List CredInfoProver → Type 0
  AllStamped states [] = Unit
  AllStamped states (info ∷ rest) = IsStamped states info × AllStamped states rest

  abbrev pub AllFresh : List CredInfoProver → Type 0
  AllFresh [] = Unit
  AllFresh (info ∷ rest) = (info.timestamp ≡ none) × AllFresh rest

  abbrev Kept : RevocationStates R → Stepped R → Type 0
  Kept s r = Extends s r.states × Agree r.states r.timestamps × IsStamped r.states r.info

  IsAt-known :
      (o o' : Option (List (ℕ × CredentialRevocationState))) (t : Option ℕ)
      → IsAt o t
      → ((l : List (ℕ × CredentialRevocationState)) → o ≡ some l → o' ≡ some l)
      → IsAt o' t
  IsAt-known none o' t at ext = elim at [ ]
  IsAt-known (some l) o' t at ext = rw (ext l refl) at

  StampedFor-extended :
      (o : Option (String × ℕ × String)) (s s' : RevocationStates R) (t : Option ℕ)
      → Extends s s'
      → StampedFor o s t
      → StampedFor o s' t
  StampedFor-extended none s s' t ext st = tt
  StampedFor-extended (some (g, c, d)) s s' t ext st =
      IsAt-known (lookup g s) (lookup g s') t st (ext g)

  Same-known :
      (o : Option (List (ℕ × CredentialRevocationState))) (t : Option ℕ)
      → is_some o ≡ true
      → Same o t
      → IsAt o t
  Same-known none t h same = ground (arith, h)
  Same-known (some l) t h same = same

  Same-inserted :
      (b : Bool) (made : ℕ × CredentialRevocationState)
      (o : Option (List (ℕ × CredentialRevocationState))) (t : Option ℕ)
      → Same o t
      → Same (if b then some (made ∷ []) else o) (if b then some made.0 else t)
  Same-inserted true made o t same = refl
  Same-inserted false made o t same = same

  absent : {A : Type 0} (o : Option A) → is_some o ≡ false → o ≡ none
  absent none h = refl
  absent (some a) h = ground (arith, h)

  with_timestamp-fresh :
      (info : CredInfoProver) (t : Option ℕ)
      → info.timestamp ≡ none
      → with_timestamp info t ≡ timed info t
  with_timestamp-fresh info t fresh = rw fresh refl

  module _ (s : RevocationStates R) (t : Map ℕ) (agree : Agree s t) where
    agree-inserted :
        (g k : String) (made : ℕ × CredentialRevocationState)
        → Same (lookup k (insert g (made ∷ []) s)) (lookup k (insert g made.0 t))
    agree-inserted g k made =
        rw (lookup-inserted k g (made ∷ []) s, lookup-inserted k g made.0 t)
          (Same-inserted (g == k) made (lookup k s) (lookup k t) (agree k))

    new-Kept :
        (g : String) (c : ℕ) (d : String) (info : CredInfoProver) (w : World)
        → revocation_of info ≡ some (g, c, d)
        → contains_key g s ≡ false
        → Ensures (Kept s) (add_new R g c d info s t w).0
    new-Kept g c d info w has new =
        next-Ensures (λ _. Unit {0}) (Kept s) (create_state R info g c d)
          (λ made. pure (record {
            states = insert g (made ∷ []) s;
            timestamps = insert g made.0 t;
            info = timed info (some made.0);
          }))
          w (const-Ensures (create_state R info g c d w).0 tt)
          (λ made w' _. (
            λ k l. lookup-insert_new k g (made ∷ []) l s new,
            λ k. agree-inserted g k made,
            rw has (rw (lookup-insert g (made ∷ []) s) refl),
          ))

    known-IsStamped :
        (g : String) (c : ℕ) (d : String) (info : CredInfoProver)
        → revocation_of info ≡ some (g, c, d)
        → info.timestamp ≡ none
        → contains_key g s ≡ true
        → IsStamped s (with_timestamp info (lookup g t))
    known-IsStamped g c d info has fresh known = rw (with_timestamp-fresh info (lookup g t) fresh) (
        rw has
          (Same-known (lookup g s) (lookup g t) (sym (contains_key-lookup g s) ∙ known) (agree g)))

    branch-Kept :
        (b : Bool) (g : String) (c : ℕ) (d : String) (info : CredInfoProver) (w : World)
        → contains_key g s ≡ b
        → revocation_of info ≡ some (g, c, d)
        → info.timestamp ≡ none
        → Ensures
            (Kept s)
            ((if b
                then pure
                    (record { states = s; timestamps = t; info = with_timestamp info (lookup g t) })
                else add_new R g c d info s t)
              w).0
    branch-Kept true g c d info w known has fresh =
        (λ k l h. h, agree, known-IsStamped g c d info has fresh known)
    branch-Kept false g c d info w new has fresh = new-Kept g c d info w has new

    step-Kept :
        (o : Option (String × ℕ × String)) (info : CredInfoProver) (w : World)
        → revocation_of info ≡ o
        → info.timestamp ≡ none
        → Ensures (Kept s) (add_for R o info s t w).0
    step-Kept none info w has fresh = (λ k l h. h, agree, rw has tt)
    step-Kept (some (g, c, d)) info w has fresh =
        branch-Kept (contains_key g s) g c d info w refl has fresh

  abbrev AllKept : RevocationStates R → RevocationStates R × List CredInfoProver → Type 0
  AllKept s all = Extends s all.0 × AllStamped all.0 all.1

  all-AllKept :
      (infos : List CredInfoProver) (s : RevocationStates R) (t : Map ℕ) (w : World)
      → Agree s t
      → AllFresh infos
      → Ensures (AllKept s) (add_states R infos s t w).0
  unfolding add_states add_state
  all-AllKept [] s t w agree fresh = (λ k l h. h, tt)
  all-AllKept (info ∷ rest) s t w agree fresh =
      next-Ensures (Kept s) (AllKept s) (add_state R info s t)
        (λ r. add_states R rest r.states r.timestamps >>= λ all. pure (all.0, r.info ∷ all.1)) w
        (step-Kept s t agree (revocation_of info) info w refl fresh.0)
        (λ r w' kept.
          next-Ensures (AllKept r.states) (AllKept s) (add_states R rest r.states r.timestamps)
            (λ all. pure (all.0, r.info ∷ all.1)) w'
            (all-AllKept rest r.states r.timestamps w' kept.1 fresh.1)
            (λ all w'' later. (
              λ k l h. later.0 k l (kept.0 k l h),
              (
                StampedFor-extended (revocation_of r.info) r.states all.0 r.info.timestamp later.0
                    kept.2,
                later.1,
              ),
            )))

  ok_next :
      {A B : Type 0} (P : A → Type 0) (Q : B → Type 0) (r : VcxResult A) (f : A → VcxResult B)
      → Ensures P r
      → ((a : A) → P a → Ensures Q (f a))
      → Ensures Q (and_then r f)
  ok_next P Q (ok a) f p step = step a p
  ok_next P Q (err e) f p step = tt

  infos-AllFresh :
      (m : Map SelectedCredentialForReferent) (req : PresentationRequest)
      → Ensures AllFresh (infos_of m req)
  unfolding infos_of
  infos-AllFresh [] req = tt
  infos-AllFresh ((referent, sel) ∷ rest) req =
      ok_next (λ _. Unit {0}) AllFresh (get_revocation_interval referent req)
        (λ interval.
          and_then (infos_of rest req) λ infos. ok (info_of referent sel interval ∷ infos))
        (const-Ensures (get_revocation_interval referent req) tt)
        (λ interval _.
          ok_next AllFresh AllFresh (infos_of rest req)
            (λ infos. ok (info_of referent sel interval ∷ infos)) (infos-AllFresh rest req)
            (λ infos fresh. (refl, fresh)))

  -- The states and the credentials that `generate_indy_proof` goes on with.
  abbrev pub states_made :
      SelectedCredentials → PresentationRequest → Vcx R (RevocationStates R × List CredInfoProver)
  states_made credentials req = do
    infos ← lift (credential_def_identifiers credentials req)
    build_rev_states_json R infos

  -- In the making of a proof each credential that has a registry, an index and tails tells the time
  -- of the one revocation state that was made for its registry, also where several credentials
  -- have the same registry.
  pub times_of_states :
      (credentials : SelectedCredentials) (req : PresentationRequest) (w : World)
      → Ensures (λ built. AllStamped built.0 built.1) (states_made credentials req w).0
  unfolding build_rev_states_json lookup credential_def_identifiers
  times_of_states credentials req w =
      next-Ensures AllFresh (λ built. AllStamped built.0 built.1)
        (lift (credential_def_identifiers credentials req)) (λ infos. build_rev_states_json R infos)
        w (infos-AllFresh credentials.credential_for_referent req)
        (λ infos w' fresh.
          weaken-Ensures (AllKept []) (λ built. AllStamped built.0 built.1)
            (add_states R infos [] [] w').0 (all-AllKept infos [] [] w' (λ k. refl) fresh)
            (λ built kept. kept.1))
