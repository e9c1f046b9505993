-- ===== src/Dispute/Repositories/Rules.antt =====
-- Running the repositories and the publisher from a given session, up to where they return.
use mathlib.Core.List.{append-nil}
use rent_a_girlfriend.Prelude.{
  All, All-of_mem, false, ◌&&◌, eq_iff, ℕ, String, ◌≡◌, refl, sym, subst, Bool, true, false, Option,
  none, some, List, [], ◌∷◌, ◌++◌, append_assoc, Memᴰ, ◌==◌, if◌then◌else◌,
}
use rent_a_girlfriend.Table.Rows.{upsert, NoClash}
use rent_a_girlfriend.Table.Reads.{mem_of_first}
use rent_a_girlfriend.Dispute.Vo.{Error, Result, ok, err, encode_error}
use rent_a_girlfriend.Dispute.Events.{DomainEvent}
use rent_a_girlfriend.Dispute.Aggregate.{Dispute}
use rent_a_girlfriend.Dispute.Action.{Action, ◌>>◌, pure, lift, gets, modify, raise, ◌>>=◌}
use rent_a_girlfriend.Dispute.Action.Runs.{Runs, Runs-pure, Runs-weaken, Ends}
use rent_a_girlfriend.Dispute.Mappers.{DisputeModel, to_model, to_domain, to_protobuf, ProtoMessage}
use rent_a_girlfriend.Dispute.Repositories.{
  is_active, find_open_by_booking_id, booking_id, Environment, Session, event_type, dispute_id,
  booking_id, merge_dispute, save, read, or_raise, messages, message, add_message, find_by_id,
  publish, publish_all,
}

-- If the method returns, it leaves a session with `Q`.
abbrev pub Returns : {S A : Type 0} → Action S A → S → (A → S → Type 0) → Type 0
Returns m s Q = Runs m s Q (λ _. Unit)

pub Returns-ended :
    {S A : Type 0} {Q : A → S → Type 0} (m : Action S A) (s : S) {a : A} {s' : S}
    → Returns m s Q
    → m s ≡ (ok a, s')
    → Q a s'
Returns-ended {Q = Q} m s h e = subst (Ends Q (λ _. Unit)) e h.outcome

module _ {S A B : Type 0} {Q : B → S → Type 0} where
  pub Returns-lift :
      (r : Result A) (f : A → Action S B) (s : S)
      → ((a : A) → r ≡ ok a → Returns (f a) s Q)
      → Returns (lift r >>= f) s Q
  unfolding lift ◌>>=◌
  Returns-lift (ok a) f s h = record { outcome = (h a refl).outcome }
  Returns-lift (err e) f s h = record { outcome = tt }

  pub Returns-pure :
      (a : A) (f : A → Action S B) (s : S) → Returns (f a) s Q → Returns (pure a >>= f) s Q
  unfolding pure ◌>>=◌
  Returns-pure a f s h = record { outcome = h.outcome }

  pub Returns-if :
      (b : Bool) (m n : Action S A) (f : A → Action S B) (s : S)
      → (b ≡ true → Returns (m >>= f) s Q)
      → (b ≡ false → Returns (n >>= f) s Q)
      → Returns ((if b then m else n) >>= f) s Q
  Returns-if true m n f s h k = h refl
  Returns-if false m n f s h k = k refl

  pub Returns-raise : (e : Error) (f : A → Action S B) (s : S) → Returns (raise e >>= f) s Q
  unfolding raise ◌>>=◌
  Returns-raise e f s = record { outcome = tt }

  pub Returns-gets :
      (g : S → A) (f : A → Action S B) (s : S) → Returns (f (g s)) s Q → Returns (gets g >>= f) s Q
  unfolding gets ◌>>=◌
  Returns-gets g f s h = record { outcome = h.outcome }

  pub Returns-or_raise :
      (e : Error) (o : Option A) (f : A → Action S B) (s : S)
      → ((a : A) → o ≡ some a → Returns (f a) s Q)
      → Returns (or_raise e o >>= f) s Q
  unfolding or_raise raise pure ◌>>=◌
  Returns-or_raise e none f s h = record { outcome = tt }
  Returns-or_raise e (some a) f s h = record { outcome = (h a refl).outcome }

pub Returns-skip :
    {S B : Type 0} {Q : B → S → Type 0} (m : Action S B) (s : S)
    → Returns m s Q
    → Returns (pure tt >> m) s Q
unfolding pure ◌>>=◌
Returns-skip m s h = record { outcome = h.outcome }

pub Returns-modify :
    {S B : Type 0} {Q : B → S → Type 0} (g : S → S) (f : Unit {0} → Action S B) (s : S)
    → Returns (f tt) (g s) Q
    → Returns (modify g >>= f) s Q
unfolding modify ◌>>=◌
Returns-modify g f s h = record { outcome = h.outcome }

pub Returns-assoc :
    {S A B C : Type 0} {Q : C → S → Type 0} (m : Action S A) (f : A → Action S B)
    (g : B → Action S C) (s : S)
    → Returns (m >>= λ a. (f a >>= g)) s Q
    → Returns ((m >>= f) >>= g) s Q
unfolding ◌>>=◌
Returns-assoc {S} {A} {B} {C} {Q} m f g s h = record { outcome = next (m s) h.outcome }
  where
    next :
        (p : Result A × S)
        → Ends Q (λ _. Unit) (((λ _. p) >>= λ a. (f a >>= g)) s)
        → Ends Q (λ _. Unit) ((((λ _. p) >>= f) >>= g) s)
    next (ok a, s') q = q
    next (err e, s') q = q

-- The row that saving a dispute writes.
abbrev pub row_of : Dispute → ℕ → DisputeModel
row_of d v = record (to_model d) { version = v }

module _ {Rate : Type 0} (env : Environment Rate) {B : Type 0} {Q : B → Session Rate → Type 0} where
  pub Returns-save :
      (d : Dispute) (f : Dispute → Action (Session Rate) B) (s : Session Rate)
      → ((v : ℕ)
          → NoClash dispute_id booking_id (row_of d v) s.disputes
          → Returns
              (f (record d { version = v }))
              (record s { disputes = upsert dispute_id (row_of d v) s.disputes })
              Q)
      → Returns (save env d >>= f) s Q
  unfolding save merge_dispute
  Returns-save d f s h = Returns-assoc _ _ f s (
      Returns-assoc _ _ _ s (
        Returns-gets _ _ s (
          Returns-assoc _ _ _ s (
            Returns-or_raise _ _ _ s λ v _. Returns-assoc _ _ _ s (
              Returns-gets _ _ s (
                Returns-assoc _ _ _ s (
                  Returns-or_raise _ _ _ s λ t e.
                    let (t_is, clash) = env.disputes.merge_some _ _ t e in
                    Returns-assoc _ _ _ s (
                      Returns-modify _ _ s (
                        Returns-pure _ _ _ (
                          Returns-pure _ _ _ (
                            subst
                              (λ t'.
                                Returns (f (record d { version = v })) (record s { disputes = t' })
                                  Q)
                              (sym t_is) (h v clash))))))))))))

  pub Returns-find_by_id :
      (k : String) (f : Option Dispute → Action (Session Rate) B) (s : Session Rate)
      → Returns (f none) s Q
      → ((m : DisputeModel) (d : Dispute)
          → Memᴰ m s.disputes
          → m.dispute_id ≡ k
          → to_domain m ≡ ok d
          → Returns (f (some d)) s Q)
      → Returns (find_by_id env k >>= f) s Q
  unfolding find_by_id
  Returns-find_by_id k f s h g = Returns-assoc _ _ f s (Returns-gets _ _ s (next _ refl))
    where
      next :
          (o : Option DisputeModel)
          → env.disputes.first (λ m. dispute_id m == k) s.disputes ≡ o
          → Returns (read env o >>= f) s Q
      next none e = unfold read in Returns-pure none f s h
      next (some m) e =
          let (mem, same) = mem_of_first env.disputes dispute_id s.disputes k m e in
          unfold read in
          Returns-assoc _ _ f s
            (Returns-lift (to_domain m) _ s λ d q. Returns-pure (some d) f s (g m d mem same q))

-- No dispute of the booking is open or being resolved.
abbrev pub NoneActive : String → List DisputeModel → Type 0
NoneActive b t = All (λ m. m.booking_id ≡ b → is_active m.status ≡ false) t

module _ {Rate : Type 0} (env : Environment Rate) where
  none_active :
      (b : String) (t : List DisputeModel)
      → env.disputes.first (λ m. booking_id m == b && is_active m.status) t ≡ none
      → NoneActive b t
  none_active b t missing = All-of_mem _ t λ m mem same.
      let other = env.disputes.first_none _ t m missing mem in
      subst (λ c. (c && is_active m.status) ≡ false) ((eq_iff (booking_id m) b).1 same) other

  pub Returns-find_open_by_booking_id :
      {B : Type 0} {Q : B → Session Rate → Type 0} (b : String)
      (f : Option Dispute → Action (Session Rate) B) (s : Session Rate)
      → (NoneActive b s.disputes → Returns (f none) s Q)
      → ((d : Dispute) → Returns (f (some d)) s Q)
      → Returns (find_open_by_booking_id env b >>= f) s Q
  unfolding find_open_by_booking_id
  Returns-find_open_by_booking_id {B} {Q} b f s h g =
      Returns-assoc _ _ f s (Returns-gets _ _ s (next _ refl))
    where
      next :
          (o : Option DisputeModel)
          → env.disputes.first (λ m. booking_id m == b && is_active m.status) s.disputes ≡ o
          → Returns (read env o >>= f) s Q
      next none e = unfold read in Returns-pure none f s (h (none_active b s.disputes e))
      next (some m) e =
          unfold read in
          Returns-assoc _ _ f s
            (Returns-lift (to_domain m) _ s λ d q. Returns-pure (some d) f s (g d))

module _ {Rate : Type 0} (env : Environment Rate) where
  Returns-publish :
      {B : Type 0} {Q : B → Session Rate → Type 0} (e : DomainEvent)
      (f : Unit {0} → Action (Session Rate) B) (s : Session Rate)
      → Returns (f tt) (record s { outbox = s.outbox ++ message (to_protobuf e) }) Q
      → Returns (publish env e >>= f) s Q
  unfolding publish message add_message
  Returns-publish {B} {Q} e f s h = next (to_protobuf e) h
    where
      next :
          (o : Option ProtoMessage)
          → Returns (f tt) (record s { outbox = s.outbox ++ message o }) Q
          → Returns (add_message env e o >>= f) s Q
      next none h' =
          Returns-pure tt f s
            (subst (λ t. Returns (f tt) (record s { outbox = t }) Q) (append-nil s.outbox) h')
      next (some msg) h' = added (env.encodes e)
        where
          added :
              (b : Bool)
              → Returns
                  ((if b
                      then modify (λ s'. record s' {
                        outbox =
                            s'.outbox ++ record { event_type = event_type msg; payload = msg } ∷ [];
                      })
                      else raise encode_error)
                    >>= f)
                  s
                  Q
          added true = Returns-modify _ f s h'
          added false = unfold raise ◌>>=◌ in record { outcome = tt }

  pub Returns-publish_all :
      {B : Type 0} {Q : B → Session Rate → Type 0} (es : List DomainEvent)
      (f : Unit {0} → Action (Session Rate) B) (s : Session Rate)
      → Returns (f tt) (record s { outbox = s.outbox ++ messages es }) Q
      → Returns (publish_all env es >>= f) s Q
  unfolding publish_all messages
  Returns-publish_all {B} {Q} [] f s h =
      Returns-pure tt f s
        (subst (λ t. Returns (f tt) (record s { outbox = t }) Q) (append-nil s.outbox) h)
  Returns-publish_all {B} {Q} (e ∷ es) f s h = Returns-assoc _ _ f s (
      Returns-publish e _ s (
        Returns-publish_all es f _ (
          subst (λ t. Returns (f tt) (record s { outbox = t }) Q)
            (sym (append_assoc s.outbox (message (to_protobuf e)) (messages es))) h)))

  -- The publication that a command ends with leaves the disputes alone.
  pub Returns-last :
      (P : List DisputeModel → Type 0) (es : List DomainEvent) (s : Session Rate)
      → P s.disputes
      → Returns (publish_all env es) s (λ _ s'. P s'.disputes)
  Returns-last P es s p =
      Runs-weaken (bound (Returns-publish_all es pure s (Runs-pure tt p))) (λ a s' q. q) (λ s' q. q)
    where
      bound :
          {Q : Unit {0} → Session Rate → Type 0}
          → Returns (publish_all env es >>= pure) s Q
          → Returns (publish_all env es) s Q
      bound {Q} h = record {
        outcome = next (publish_all env es s) (unfold ◌>>=◌ pure in h.outcome);
      }
        where
          next :
              (q : Result Unit × Session Rate)
              → Ends Q (λ _. Unit) (((λ _. q) >>= pure) s)
              → Ends Q (λ _. Unit) q
          next (ok a, s') h' = unfold ◌>>=◌ pure in h'
          next (err e, s') h' = tt
