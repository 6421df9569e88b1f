-- ===== src/Accounts/Loading.antt =====
-- `AccountVault::upsert` of src/common/meta/accounts.cpp: what has been saved is loaded again.
use rift_lift.Common.{
  ℕ, ◌≤◌, true, false, Option, none, some, Text, text_eq, text_eq_iff, find, ok, ◌≡◌, refl, ap, sym,
  ◌∙◌, subst, arith, and_left, and_right, ok-injective,
}
use rift_lift.Names.{valid_account_key}
use rift_lift.Exec.{pure, bind-run, check-run}
use rift_lift.Accounts.Vault.{
  Session, Account, AccountIndex, stored, Vault, slot_of, World, secret_load, save_secret,
}
use rift_lift.Accounts.Index.{
  has_id, find_account, parse_index, json_of, write_index, reconcile_locked,
}
use rift_lift.Accounts.Requests.{usable, verified, upserted, upsert_locked, upsert, load}
use rift_lift.Accounts.Valid.{Valid, Consistent, parse-json_of, read-Valid}
use rift_lift.Accounts.Adopting.{reconcile_locked-Valid}
use rift_lift.Accounts.Joining.{Fits, upserted-Valid}
use rift_lift.Accounts.Runs.{load-eq, write_index-eq_ok, read-run, load_secret-run}
use rift_lift.Accounts.Upserting.{
  save_secret-eq_ok, reconcile_locked-eq_ok, upserted-usable, upserted-account_key, new_key-run,
}

-- What an upsert of `s` that gives the key `k` makes of `v`.
pub record Loads (s : Session) (k : Text) (v w : Vault) : Type 0 where
  pub session : Session
  pub loaded : (load k w).0 ≡ ok (some session)
  pub same_account : session.account_id ≡ s.account_id
  pub same_token : session.access_token ≡ s.access_token
  pub index : AccountIndex
  pub read : parse_index w.index ≡ ok index
  pub active : index.active ≡ k
  pub legacy : w.legacy ≡ v.legacy
  pub others : (j : Text) → text_eq j k ≡ false → slot_of j w.slots ≡ slot_of j v.slots

verified-session :
    (s : Session) (verify : Option Session)
    → verified s verify ≡ true
    → (t : Session) × (verify ≡ some t)
      × (t.account_id ≡ s.account_id)
      × (t.access_token ≡ s.access_token)
verified-session s none h = absurd cc
verified-session s (some t) h = (
  t,
  refl,
  (text_eq_iff t.account_id s.account_id).0 (and_left _ _ h),
  (text_eq_iff t.access_token s.access_token).0 (and_right _ _ h),
)

-- The slot gives the session and the index has the account, so that the key gives the session.
loads :
    (a : Account) (k : Text) (t : Session) (w : Vault) (index : AccountIndex)
    → parse_index w.index ≡ ok index
    → valid_account_key k ≡ true
    → find_account k index.accounts ≡ some a
    → usable a ≡ true
    → t.account_id ≡ a.account_id
    → secret_load k (slot_of k w.slots) ≡ ok (some t)
    → (load k w).0 ≡ ok (some t)
loads a k t w index read key there usable same kept =
    load-eq k w index read
    ∙ rw (key, there, usable, kept) (rw ((text_eq_iff t.account_id a.account_id).1 same) refl)

saved-Loads :
    (limit : ℕ) (world : World) (index : AccountIndex) (s : Session) (it : Option Account)
    (k : Text) (v u : Vault) (a : Unit {0}) (verify : Option Session)
    → find (has_id s.account_id) index.accounts ≡ it
    → Fits index it k
    → Valid limit index
    → Valid limit (upserted world k s it index)
    → save_secret world k s v ≡ (ok a, u)
    → secret_load k (slot_of k u.slots) ≡ ok verify
    → verified s verify ≡ true
    → Loads s k v (record u { index = stored (json_of (upserted world k s it index)) })
saved-Loads limit world index s it k v u a verify e fits valid valid' es kept good =
    let (t, is_t, same_id, same_token) = verified-session s verify good in
    let (b, there, ready, same) = upserted-usable limit world k s index it e fits valid in
    let read = parse-json_of limit (upserted world k s it index) valid' in
    let (legacy, others) = save_secret-eq_ok world k s v u a es in
    record {
      session = t;
      loaded =
          loads b k t _ (upserted world k s it index) read
            (upserted-account_key limit k s index it e fits valid) there ready (same_id ∙ sym same)
            (kept ∙ ap ok is_t);
      same_account = same_id;
      same_token = same_token;
      index = upserted world k s it index;
      read = read;
      active = refl;
      legacy = legacy;
      others = others;
    }

pub upsert_locked-Loads :
    (limit : ℕ) (world : World) (index : AccountIndex) (s : Session) (k : Text) (v w : Vault)
    → 4 ≤ limit
    → Valid limit index
    → upsert_locked world index s v ≡ (ok k, w)
    → Loads s k v w
unfolding upsert_locked pure
upsert_locked-Loads limit world index s k v w room valid e =
    let it = find (has_id s.account_id) index.accounts in
    check-run _ _ _ v k w e λ stable r1. check-run _ _ _ v k w r1 λ space r2.
      new_key-run world index it _ v w k r2 λ j fits r3.
        bind-run _ v k w (save_secret world j s) r3 λ u v1 e1 r4.
          load_secret-run j _ v1 w k r4 λ verify kept r5. check-run _ _ _ v1 k w r5 λ good r6.
            bind-run _ v1 k w (write_index world (upserted world j s it index)) r6 λ u' v2 e2 r7.
              subst (λ k. Loads s k v w) (ok-injective (ap (λ r. r.0) r7))
                (subst (Loads s j v)
                  (sym (write_index-eq_ok world (upserted world j s it index) v1 v2 u' e2)
                    ∙ ap (λ r. r.1) r7)
                  (saved-Loads limit world index s it j v v1 u verify refl fits valid
                    (upserted-Valid limit world j s index it refl (and_left _ _ stable) fits.0
                      fits.1 (λ new. ground (arith, space, new, room)) valid)
                    e1 kept good))

-- An upsert that gives a key has stored the session: that key is active and gives a session with the
-- same account and token, and no other slot has changed.
pub upsert-Loads :
    (limit : ℕ) (world : World) (s : Session) (k : Text) (v w : Vault)
    → 4 ≤ limit
    → Consistent limit v
    → upsert world s v ≡ (ok k, w)
    → Loads s k v w
unfolding upsert
upsert-Loads limit world s k v w room c e = read-run _ v w k e λ idx read r1.
    bind-run _ v k w (reconcile_locked world idx) r1 λ idx' u e2 r2.
      let (_, valid) =
        (reconcile_locked-Valid limit world idx room (read-Valid limit v c idx read)).at v c in
      let (slots, legacy) = reconcile_locked-eq_ok world idx idx' v u e2 in
      let there =
        upsert_locked-Loads limit world idx' s k u w room (valid idx' (ap (λ r. r.0) e2)) r2 in
      record {
        session = there.session;
        loaded = there.loaded;
        same_account = there.same_account;
        same_token = there.same_token;
        index = there.index;
        read = there.read;
        active = there.active;
        legacy = there.legacy ∙ legacy;
        others = λ j h. there.others j h ∙ ap (slot_of j) slots;
      }
