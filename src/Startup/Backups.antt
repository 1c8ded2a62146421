-- ===== src/Startup/Backups.antt =====
-- `initHost` of proxy/main.c: the backup of each file server is found in the table that it fills.
use lrued_redis_storage_iceb.Prelude.{
  ℕ, ◌≡◌, refl, ◌<◌, Option, none, some, List, [], ◌∷◌, ◌∙◌, ap, sym, arith, length, Order, strcmp,
}
use lrued_redis_storage_iceb.HashTable.{seek, found_value, HashTable, ulong_max, ht_get}
use lrued_redis_storage_iceb.HashTable.Strcmp.{eq_of_same, strcmp_self}
use lrued_redis_storage_iceb.HashTable.Lookup.{
  IsTable, IsName, home, ht_get-home, ht_get-stored_self, ht_get-stored_ne, ht_create-empty,
  ht_set_stores, stored, stored-IsTable,
}
use lrued_redis_storage_iceb.State.{Text, Hosts}
use lrued_redis_storage_iceb.Startup.{masters, add_backups, init_host}

-- A file server and its backup, as two entries of `ips`.
pub record Server : Type 0 where
  pub master : Text
  pub backup : Text
  pub is_name : IsName master

unfoldable pub ips_of : List Server → List Text
ips_of [] = []
ips_of (s ∷ ss) = s.master ∷ s.backup ∷ ips_of ss

unfoldable pub masters_of : List Server → List (Option Text)
masters_of [] = []
masters_of (s ∷ ss) = some (s.master) ∷ masters_of ss

-- The value that an uninitialised `hashval` holds in each call is not ULONG_MAX.
abbrev pub AllBelow : List ℕ → Type 0
AllBelow [] = Unit {0}
AllBelow (u ∷ us) = (u < ulong_max) × AllBelow us

abbrev or_else : Option Text → Option Text → Option Text
or_else none b = b
or_else (some a) b = some a

abbrev own_backup : Server → Text → Option Text
own_backup s key = elim (strcmp key s.master) [ Order.same ↦ some s.backup | _ ↦ none ]

-- The backup of the last server of that name.
unfoldable pub backup_in : List Server → Text → Option Text
backup_in [] key = none
backup_in (s ∷ ss) key = or_else (backup_in ss key) (own_backup s key)

or_else_assoc : (a b c : Option Text) → or_else (or_else a b) c ≡ or_else a (or_else b c)
or_else_assoc none b c = refl
or_else_assoc (some a) b c = refl

masters_lem : (ss : List Server) → masters (ips_of ss) ≡ masters_of ss
unfolding masters ips_of masters_of
masters_lem [] = refl
masters_lem (s ∷ ss) = ap (λ l. some s.master ∷ l) (masters_lem ss)

-- What `ht_get` finds after the `ht_set` for one server.
module _ (s : Server) (t : HashTable) (v : IsTable t) {key : Text} (n : IsName key) (u u' : ℕ)
    (below : u < ulong_max) (below' : u' < ulong_max) where
  by_order :
      (o : Order)
      → strcmp key s.master ≡ o
      → ht_get u (stored t s.is_name s.backup) key
        ≡ or_else (elim o [ Order.same ↦ some s.backup | _ ↦ none ]) (ht_get u' t key)
  by_order Order.same e =
      ap (ht_get u (stored t s.is_name s.backup)) (eq_of_same key s.master e)
      ∙ ht_get-stored_self s.is_name u t s.backup v below
  by_order Order.less e =
      ht_get-stored_ne s.is_name n u u' t s.backup v below below' (λ same. other_order same e)
    where
      other_order : s.master ≡ key → strcmp key s.master ≡ Order.less → ⊥
      other_order same e' =
          let clash : Order.same ≡ Order.less =
            sym (strcmp_self key) ∙ (ap (strcmp key) (sym same) ∙ e') in
          ground (arith, clash)
  by_order Order.more e =
      ht_get-stored_ne s.is_name n u u' t s.backup v below below' (λ same. other_order same e)
    where
      other_order : s.master ≡ key → strcmp key s.master ≡ Order.more → ⊥
      other_order same e' =
          let clash : Order.same ≡ Order.more =
            sym (strcmp_self key) ∙ (ap (strcmp key) (sym same) ∙ e') in
          ground (arith, clash)

  ht_get-stored :
      ht_get u (stored t s.is_name s.backup) key ≡ or_else (own_backup s key) (ht_get u' t key)
  ht_get-stored = by_order (strcmp key s.master) refl

-- Each server's backup is stored, from whatever uninitialised values but ULONG_MAX.
add_backups_lem :
    (ss : List Server) (garbage : List ℕ) (t : HashTable)
    → IsTable t
    → AllBelow garbage
    → (t' : HashTable) × (add_backups garbage (ips_of ss) t ≡ some t')
      × IsTable t'
      × ((key : Text) (n : IsName key) (u u' : ℕ)
          → u < ulong_max
          → u' < ulong_max
          → ht_get u t' key ≡ or_else (backup_in ss key) (ht_get u' t key))
unfolding add_backups ips_of backup_in
add_backups_lem [] garbage t v below =
    (t, refl, v, λ key n u u' h h'. ht_get-home n u v h ∙ sym (ht_get-home n u' v h'))
add_backups_lem (s ∷ ss) [] t v below =
    let (t', runs, valid, found) =
      add_backups_lem ss [] (stored t s.is_name s.backup) (stored-IsTable s.is_name t s.backup v)
        tt in
    (
      t',
      rw (ht_set_stores s.is_name 0 t s.backup v (omega arith)) runs,
      valid,
      λ key n u u' h h'.
          found key n u u h h
          ∙ ap (or_else (backup_in ss key)) (ht_get-stored s t v n u u' h h')
          ∙ sym (or_else_assoc (backup_in ss key) (own_backup s key) (ht_get u' t key)),
    )
add_backups_lem (s ∷ ss) (g ∷ garbage) t v below =
    let (t', runs, valid, found) =
      add_backups_lem ss garbage (stored t s.is_name s.backup)
        (stored-IsTable s.is_name t s.backup v) below.1 in
    (
      t',
      rw (ht_set_stores s.is_name g t s.backup v below.0) runs,
      valid,
      λ key n u u' h h'.
          found key n u u h h
          ∙ ap (or_else (backup_in ss key)) (ht_get-stored s t v n u u' h h')
          ∙ sym (or_else_assoc (backup_in ss key) (own_backup s key) (ht_get u' t key)),
    )

or_else-none : (a : Option Text) → or_else a none ≡ a
or_else-none none = refl
or_else-none (some a) = refl

-- If every allocation succeeds, `initHost` on the entries of any servers with ASCII names of two
-- characters or more returns the servers in order with their number, and `ht_get` finds for every
-- such name the backup of the last server of that name, or nothing, from whatever uninitialised
-- values but ULONG_MAX.
pub init_host-backups :
    (ss : List Server) (garbage : List ℕ) (key : Text) (n : IsName key) (u : ℕ)
    → AllBelow garbage
    → u < ulong_max
    → (h : Hosts) × (init_host garbage (ips_of ss) ≡ some h)
      × (h.host_masters ≡ masters_of ss)
      × (h.host_master_num ≡ length (masters_of ss))
      × (ht_get u h.hashtable key ≡ backup_in ss key)
unfolding init_host seek found_value
init_host-backups ss garbage key n u below h =
    let (t, made, fresh, empty) = ht_create-empty 65536 refl in
    let (t', runs, valid, found) = add_backups_lem ss garbage t fresh below in
    let nothing : ht_get u t key ≡ none = ht_get-home n u fresh h ∙ rw (empty (home n)) refl in
    (
      record {
        host_masters = masters_of ss;
        host_master_num = length (masters_of ss);
        hashtable = t';
      },
      rw (made, runs, masters_lem ss) refl,
      refl,
      refl,
      found key n u u h h
          ∙ (ap (or_else (backup_in ss key)) nothing ∙ or_else-none (backup_in ss key)),
    )
