-- ===== src/Kube/Memory.antt =====
-- A server that answers from a map: what `Server` assumes can hold. A deletion is accepted at once
-- and finished in the next pause, for a namespace with all that lies in it. A pause also gives each
-- namespace the ConfigMap of the root CA.
use mathlib.Core.Path.{subst}
use mathlib.Core.Option.{some-injective}
use release_tests_ginkgo.Prelude.{
  ◌≡◌, ◌≢◌, refl, sym, ap, ◌∙◌, Bool, true, false, ◌&&◌, Option, none, some, [], ◌∷◌, inl, inr,
  Bool-cases, text_eq, arith,
}
use release_tests_ginkgo.Prelude.{◌==◌, if◌then◌else◌}
use release_tests_ginkgo.Prelude.Texts.{codes}
use release_tests_ginkgo.Kube.{
  Key, key_eq, namespace_of, text, field, empty, Manifest, Object, ApiError, not_found,
  already_exists, Reply, reply, refused, Gone, Server,
}

abbrev pub Memory : Type 0
Memory = Key → Option Object

unfoldable pub put : Key → Option Object → Memory → Memory
put k o w j = if j == k then o else w j

unfoldable read : Option Object → Reply Object
read none = refused not_found
read (some o) = reply o

abbrev marked : Object → Object
marked o = record { labels = o.labels; uid = o.uid; deleting = true; body = o.body }

abbrev made : Manifest → Object
made m = record { labels = m.labels; uid = codes "1"; deleting = false; body = m.body }

abbrev changed : Object → Object → Object
changed old o = record { labels = o.labels; uid = old.uid; deleting = old.deleting; body = o.body }

unfoldable create_in : Key → Manifest → Option Object → Memory → Reply Object × Memory
unfolding put
create_in k m (some o) w = (refused already_exists, w)
create_in k m none w = (reply (made m), put k (some (made m)) w)

unfoldable update_in : Key → Object → Option Object → Memory → Reply Object × Memory
unfolding put
update_in k o none w = (refused not_found, w)
update_in k o (some old) w = (reply (changed old o), put k (some (changed old o)) w)

unfoldable delete_in : Key → Option Object → Memory → Option ApiError × Memory
unfolding put
delete_in k none w = (some not_found, w)
delete_in k (some o) w = (none, put k (some (marked o)) w)

-- The ConfigMap of the root CA, which every namespace gets.
abbrev pub root_ca : Object
root_ca = record {
  labels = [];
  uid = codes "9";
  deleting = false;
  body = field "data" (field "ca.crt" (text (codes "ca")) empty) empty;
}

unfoldable pub is_root_ca : Key → Bool
is_root_ca (cluster ∷ resource ∷ namespace ∷ name ∷ []) =
    resource == codes "configmaps" && name == codes "kube-root-ca.crt"
is_root_ca k = false

unfoldable finished : Option Object → Option Object
finished none = none
finished (some o) = if o.deleting then none else some o

unfoldable provide : Bool → Option Object → Option Object
provide true none = some root_ca
provide true (some o) = some o
provide false o = o

-- What is at a key after a pause, by what is there and in its namespace, if it has one that is there.
unfoldable pause_at : Bool → Option Object → Option Object → Option Object
pause_at m o none = finished o
pause_at m o (some n) = if n.deleting then none else provide m (finished o)

unfoldable home_of : Option Key → Memory → Option Object
home_of none w = none
home_of (some n) w = w n

put-same : (k : Key) (o : Option Object) (w : Memory) → put k o w k ≡ o
unfolding put
put-same k o w = ground arith

put-other : (k j : Key) (o : Option Object) (w : Memory) → j ≢ k → put k o w j ≡ w j
unfolding put
put-other k j o w n = ground arith

read_reply : (x : Option Object) (o : Object) → read x ≡ reply o → x ≡ some o
unfolding read
read_reply x o e = ground arith

read_missing : (x : Option Object) → read x ≡ refused not_found → x ≡ none
unfolding read
read_missing none e = refl
read_missing (some o) e = absurd (ground arith)

create_keeps :
    (k : Key) (m : Manifest) (x : Option Object) (w : Memory) (o : Object)
    → w k ≡ x
    → x ≡ some o
    → (create_in k m x w).1 k ≡ some o
unfolding create_in
create_keeps k m none w o e h = absurd (ground arith)
create_keeps k m (some p) w o e h = e ∙ h

create_labels :
    (k : Key) (m : Manifest) (x : Option Object) (w : Memory) (o : Object)
    → x ≡ none
    → (create_in k m x w).1 k ≡ some o
    → o.labels ≡ m.labels
unfolding create_in
create_labels k m none w o e h =
    let same : some (made m) ≡ some o = sym (put-same k (some (made m)) w) ∙ h in
    sym (ap (λ p. p.labels) (some-injective (made m) o same))
create_labels k m (some p) w o e h = absurd (ground arith)

create_elsewhere :
    (k j : Key) (m : Manifest) (x : Option Object) (w : Memory)
    → j ≢ k
    → (create_in k m x w).1 j ≡ w j
unfolding create_in
create_elsewhere k j m none w n = put-other k j (some (made m)) w n
create_elsewhere k j m (some p) w n = refl

update_elsewhere :
    (k j : Key) (o : Object) (x : Option Object) (w : Memory)
    → j ≢ k
    → (update_in k o x w).1 j ≡ w j
unfolding update_in
update_elsewhere k j o none w n = refl
update_elsewhere k j o (some p) w n = put-other k j (some (changed p o)) w n

update_gone :
    (k : Key) (o : Object) (x : Option Object) (w : Memory)
    → w k ≡ x
    → Gone x
    → Gone ((update_in k o x w).1 k)
unfolding update_in
update_gone k o none w e h = subst Gone (sym e) h
update_gone k o (some p) w e h = subst Gone (sym (put-same k (some (changed p o)) w)) h

delete_elsewhere :
    (k j : Key) (x : Option Object) (w : Memory) → j ≢ k → (delete_in k x w).1 j ≡ w j
unfolding delete_in
delete_elsewhere k j none w n = refl
delete_elsewhere k j (some p) w n = put-other k j (some (marked p)) w n

delete_leaves : (k : Key) (x : Option Object) (w : Memory) → w k ≡ x → Gone ((delete_in k x w).1 k)
unfolding delete_in
delete_leaves k none w e = subst Gone (sym e) tt
delete_leaves k (some p) w e = subst Gone (sym (put-same k (some (marked p)) w)) refl

provide_some : (m : Bool) (o : Object) → provide m (some o) ≡ some o
unfolding provide
provide_some true o = refl
provide_some false o = refl

finished_alive : (o : Object) → o.deleting ≡ false → finished (some o) ≡ some o
unfolding finished
finished_alive o h = ap (λ b. if b then none else some o) h

pause_keeps :
    (m : Bool) (k : Key) (w : Memory) (home : Option Key) (o : Object)
    → w k ≡ some o
    → o.deleting ≡ false
    → ((n : Key) → home ≡ some n → (p : Object) × (w n ≡ some p) × (p.deleting ≡ false))
    → pause_at m (w k) (home_of home w) ≡ some o
unfolding pause_at home_of
pause_keeps m k w none o e h f = ap finished e ∙ finished_alive o h
pause_keeps m k w (some n) o e h f =
    let (p, there, alive) = f n refl in
    ap (λ x. pause_at m (w k) x) there
    ∙ ap (λ b. if b then none else provide m (finished (w k))) alive
    ∙ ap (λ x. provide m x) (ap finished e ∙ finished_alive o h)
    ∙ provide_some m o

finished_gone : (x : Option Object) → Gone x → finished x ≡ none
unfolding finished
finished_gone none h = refl
finished_gone (some o) h = rw h refl

pause_gone : (m : Bool) (x home : Option Object) → m ≡ false → Gone x → Gone (pause_at m x home)
unfolding pause_at provide
pause_gone true x home e h = absurd (ground arith)
pause_gone false x none e h = subst Gone (sym (finished_gone x h)) tt
pause_gone false x (some n) e h = elim (Bool-cases n.deleting) [
  | inl yes' ↦ rw yes' tt
  | inr no' ↦ rw (no', finished_gone x h) tt
]

delete_stays : (k j : Key) (w : Memory) → Gone (w j) → Gone ((delete_in k (w k) w).1 j)
delete_stays k j w h = elim (key_eq.dec j k) [
  | yes same ↦
      subst (λ i. Gone ((delete_in k (w k) w).1 i)) (sym same) (delete_leaves k (w k) w refl)
  | no differ ↦ subst Gone (sym (delete_elsewhere k j (w k) w differ)) h
]

unfoldable pub memory : Server Memory
unfolding read create_in update_in delete_in pause_at finished provide home_of read_reply
    read_missing create_elsewhere create_keeps create_labels update_elsewhere update_gone
    delete_elsewhere delete_leaves pause_keeps pause_gone put-other put-same delete_stays
    provide_some finished_alive finished_gone
memory = record {
  get = λ k w. read (w k);
  create = λ k m w. create_in k m (w k) w;
  update = λ k o w. update_in k o (w k) w;
  delete = λ k w. delete_in k (w k) w;
  pause = λ w k. pause_at (is_root_ca k) (w k) (home_of (namespace_of k) w);
  stored = λ k w. w k;
  get_reply = λ k w o. read_reply (w k) o;
  get_missing = λ k w. read_missing (w k);
  create_elsewhere = λ k j m w. create_elsewhere k j m (w k) w;
  create_keeps = λ k m w o. create_keeps k m (w k) w o refl;
  create_labels = λ k m w o. create_labels k m (w k) w o;
  update_elsewhere = λ k j o w. update_elsewhere k j o (w k) w;
  update_gone = λ k o w. update_gone k o (w k) w refl;
  delete_elsewhere = λ k j w n outside. delete_elsewhere k j (w k) w n;
  delete_accepted = λ k w h. delete_leaves k (w k) w refl;
  delete_missing = λ k w h. delete_leaves k (w k) w refl;
  delete_gone = delete_stays;
  pause_keeps = λ k w o. pause_keeps (is_root_ca k) k w (namespace_of k) o;
  provided = is_root_ca;
  pause_gone = λ k w. pause_gone (is_root_ca k) (w k) (home_of (namespace_of k) w);
}
