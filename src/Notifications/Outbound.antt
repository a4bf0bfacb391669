-- ===== src/Notifications/Outbound.antt =====
-- The queue of outbound messages has one row for each dedupe key.
use news_board.Prelude.{
  String, ◌≡◌, refl, true, false, List, [], ◌∷◌, ◌++◌, map, any, In, str_eq, eq_iff, arith, inl,
  inr,
}
use news_board.Prelude.Keys.{contains, contains-append, Nodup, string_key}
use news_board.Crm.{OutboundMessageModel}
use news_board.Notifications.Repository.{add_outbound, add_all_outbound}

-- the keys of a queue
abbrev pub keys : List OutboundMessageModel → List String
keys queue = map (λ (m : OutboundMessageModel). m.dedupe_key) queue

any-contains :
    (queue : List OutboundMessageModel) (key : String)
    → any (λ (m : OutboundMessageModel). str_eq m.dedupe_key key) queue ≡ contains (keys queue) key
any-contains [] key = refl
any-contains (m ∷ queue) key =
    ground (arith, any-contains queue key, eq_iff m.dedupe_key key, eq_iff key m.dedupe_key)

keys-snoc :
    (q : List OutboundMessageModel) (r : OutboundMessageModel)
    → keys (q ++ r ∷ []) ≡ keys q ++ r.dedupe_key ∷ []
keys-snoc [] r = refl
keys-snoc (x ∷ q) r = ground (arith, keys-snoc q r)

Nodup-snoc :
    (ks : List String) (k : String) → Nodup ks → contains ks k ≡ false → Nodup (ks ++ k ∷ [])
Nodup-snoc [] k n h = ground arith
Nodup-snoc (x ∷ ks) k n h =
    ground (arith, Nodup-snoc ks k, contains-append ks (k ∷ []) x, eq_iff k x, eq_iff x k)

add_outbound-own :
    (q : List OutboundMessageModel) (r : OutboundMessageModel)
    → contains (keys (add_outbound q r)) r.dedupe_key ≡ true
add_outbound-own q r = ground (
  arith,
  any-contains q r.dedupe_key,
  keys-snoc q r,
  contains-append (keys q) (r.dedupe_key ∷ []) r.dedupe_key,
  eq_iff r.dedupe_key r.dedupe_key,
)

add_outbound-keeps :
    (q : List OutboundMessageModel) (r : OutboundMessageModel) (k : String)
    → contains (keys q) k ≡ true
    → contains (keys (add_outbound q r)) k ≡ true
add_outbound-keeps q r k h =
    ground (arith, keys-snoc q r, contains-append (keys q) (r.dedupe_key ∷ []) k)

add_outbound-Nodup :
    (q : List OutboundMessageModel) (r : OutboundMessageModel)
    → Nodup (keys q)
    → Nodup (keys (add_outbound q r))
add_outbound-Nodup q r n =
    ground (arith, any-contains q r.dedupe_key, keys-snoc q r, Nodup-snoc (keys q) r.dedupe_key n)

add_all_outbound-keeps :
    (q rows : List OutboundMessageModel) (k : String)
    → contains (keys q) k ≡ true
    → contains (keys (add_all_outbound q rows)) k ≡ true
unfolding add_all_outbound
add_all_outbound-keeps q [] k h = h
add_all_outbound-keeps q (r ∷ rows) k h =
    add_all_outbound-keeps (add_outbound q r) rows k (add_outbound-keeps q r k h)

add_all_outbound-own :
    (q rows : List OutboundMessageModel) (r : OutboundMessageModel)
    → In r rows
    → contains (keys (add_all_outbound q rows)) r.dedupe_key ≡ true
unfolding add_all_outbound
add_all_outbound-own q (x ∷ rows) r (inl e) =
    rw e (add_all_outbound-keeps (add_outbound q x) rows x.dedupe_key (add_outbound-own q x))
add_all_outbound-own q (x ∷ rows) r (inr m) = add_all_outbound-own (add_outbound q x) rows r m
add_all_outbound-own q [] r m = absurd m

add_all_outbound_known :
    (q rows : List OutboundMessageModel)
    → ((r : OutboundMessageModel) → In r rows → contains (keys q) r.dedupe_key ≡ true)
    → add_all_outbound q rows ≡ q
unfolding add_all_outbound
add_all_outbound_known q [] h = refl
add_all_outbound_known q (r ∷ rows) h =
    let same : add_outbound q r ≡ q = ground (arith, any-contains q r.dedupe_key, h r (inl refl)) in
    rw same (add_all_outbound_known q rows (λ x m. h x (inr m)))

add_all_outbound-Nodup :
    (q rows : List OutboundMessageModel) → Nodup (keys q) → Nodup (keys (add_all_outbound q rows))
unfolding add_all_outbound
add_all_outbound-Nodup q [] n = n
add_all_outbound-Nodup q (r ∷ rows) n =
    add_all_outbound-Nodup (add_outbound q r) rows (add_outbound-Nodup q r n)

-- A queue of outbound messages with one row for each dedupe key keeps that when a batch is
-- inserted, and inserting the same batch again adds nothing.
pub insert_outbound_once :
    (q rows : List OutboundMessageModel)
    → Nodup (keys q)
    → Nodup (keys (add_all_outbound q rows))
      × (add_all_outbound (add_all_outbound q rows) rows ≡ add_all_outbound q rows)
insert_outbound_once q rows n = (
  add_all_outbound-Nodup q rows n,
  add_all_outbound_known (add_all_outbound q rows) rows (add_all_outbound-own q rows),
)
