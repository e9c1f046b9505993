-- ===== src/Dispute/Handlers/Decisions.antt =====
-- What the requests to the dispute service never undo.
use rent_a_girlfriend.Prelude.{
  ◌≡◌, ◌≢◌, sym, ap, ◌∙◌, subst, true, false, false≢true, List, [], ◌∷◌, Memᴰ, All, All-mem,
}
use rent_a_girlfriend.Table.Rows.{
  upsert, IsFresh, IsDistinct, NoClash, All-upsert, mem_unique, mem-upsert_ne, upsert-IsDistinct,
  upsert-IsDistinct_unique,
}
use rent_a_girlfriend.Dispute.Vo.{resolving}
use rent_a_girlfriend.Dispute.Aggregate.{is_terminal}
use rent_a_girlfriend.Dispute.Mappers.{DisputeModel}
use rent_a_girlfriend.Dispute.Repositories.{Environment, Session, dispute_id, booking_id}
use rent_a_girlfriend.Dispute.Commands.Decisions.{IsSoundRow}
use rent_a_girlfriend.Dispute.Handlers.Requests.{
  Request, rpc_create_report, rpc_resolve_dispute, post_dispute, post_resolution, get_dispute,
  get_saga, handle, handle_all, handle_leaves,
}

-- The tables within their constraints, every row one that the service can have written.
pub record IsSound (disputes : List DisputeModel) : Type 0 where
  pub ids : IsDistinct dispute_id disputes
  pub bookings : IsDistinct booking_id disputes
  pub rows : All IsSoundRow disputes

-- A dispute that was decided is still there, as it was.
abbrev pub KeepsDecided : List DisputeModel → List DisputeModel → Type 0
KeepsDecided disputes disputes' =
    (m : DisputeModel) → Memᴰ m disputes → is_terminal m.status ≡ true → Memᴰ m disputes'

upsert-IsSound :
    (row : DisputeModel) (t t' : List DisputeModel)
    → IsSound t
    → IsSoundRow row
    → NoClash dispute_id booking_id row t
    → t' ≡ upsert dispute_id row t
    → IsSound t'
upsert-IsSound row t t' h sound clash e = subst IsSound (sym e) (record {
  ids = upsert-IsDistinct dispute_id row t h.ids;
  bookings = upsert-IsDistinct_unique dispute_id booking_id row t h.ids h.bookings clash;
  rows = All-upsert dispute_id IsSoundRow row t h.rows sound;
})

upsert-KeepsDecided :
    (row : DisputeModel) (t t' : List DisputeModel)
    → ((m : DisputeModel) → Memᴰ m t → is_terminal m.status ≡ true → m.dispute_id ≢ row.dispute_id)
    → t' ≡ upsert dispute_id row t
    → KeepsDecided t t'
upsert-KeepsDecided row t t' other e m mem decided =
    subst (Memᴰ m) (sym e) (mem-upsert_ne dispute_id row m t (other m mem decided) mem)

resolving_is_not_terminal :
    (m old : DisputeModel) → m ≡ old → old.status ≡ resolving → is_terminal m.status ≡ false
resolving_is_not_terminal m old e was =
    ap (λ (x : DisputeModel). is_terminal x.status) e ∙ ap is_terminal was

-- The ids that `uuid4` draws for the reports are not in use.
abbrev pub DrawsFresh : Request → List DisputeModel → Type 0
DrawsFresh (rpc_create_report i r) t = IsFresh dispute_id r.dispute_id t
DrawsFresh (rpc_resolve_dispute i r) t = Unit
DrawsFresh (post_dispute u r payload) t = Unit
DrawsFresh (post_resolution u r payload) t = Unit
DrawsFresh (get_dispute u r k) t = Unit
DrawsFresh (get_saga u r k) t = Unit

module _ {Rate : Type 0} where
  abbrev pub AllFresh : List (Environment Rate × Request) → Session Rate → Type 0
  AllFresh [] s = Unit
  AllFresh ((env, request) ∷ requests) s =
      DrawsFresh request s.disputes × AllFresh requests (handle env request s)

  handle_keeps :
      (env : Environment Rate) (request : Request) (s : Session Rate)
      → IsSound s.disputes
      → DrawsFresh request s.disputes
      → IsSound (handle env request s).disputes
        × KeepsDecided s.disputes (handle env request s).disputes
  handle_keeps env request s h fresh =
      handle_leaves (λ s'. IsSound s'.disputes × KeepsDecided s.disputes s'.disputes) env request s
        (λ _. (h, λ m mem _. mem))
        (λ i r e _ s' done _. (
          upsert-IsSound done.row s.disputes s'.disputes h done.sound done.single done.stored,
          upsert-KeepsDecided done.row s.disputes s'.disputes
              (λ m mem _ same.
                All-mem _ s.disputes (subst (λ q. DrawsFresh q s.disputes) e fresh) mem
                  (same ∙ done.named))
              done.stored,
        ))
        (λ k _ _ s' done. (
          upsert-IsSound done.row s.disputes s'.disputes h done.sound done.single done.stored,
          upsert-KeepsDecided done.row s.disputes s'.disputes
              (λ m mem decided same. false≢true (
                sym (
                  resolving_is_not_terminal m done.old
                    (mem_unique dispute_id m done.old s.disputes h.ids mem done.was_stored
                      (same ∙ done.named ∙ sym done.was_named))
                    done.was_resolving)
                ∙ decided))
              done.stored,
        ))

  -- Any requests through both interfaces, whose reports draw unused ids: disputes and bookings stay
  -- unique, every stored dispute stays one that the service can have written, with the resolution of its status, an admin unless it
  -- is open, a valid reason and evidences of its own, and a decided dispute stays as it is.
  pub requests_keep_decisions :
      (requests : List (Environment Rate × Request)) (s : Session Rate)
      → IsSound s.disputes
      → AllFresh requests s
      → IsSound (handle_all requests s).disputes
        × KeepsDecided s.disputes (handle_all requests s).disputes
  unfolding handle_all
  requests_keep_decisions [] s h fresh = (h, λ m mem _. mem)
  requests_keep_decisions ((env, request) ∷ requests) s h (fresh, later) =
      let (sound, kept) = handle_keeps env request s h fresh in
      let (sound', kept') = requests_keep_decisions requests (handle env request s) sound later in
      (sound', λ m mem decided. kept' m (kept m mem decided) decided)
