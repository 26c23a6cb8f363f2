-- ===== src/Subgroup/Objects.antt =====
-- `SubgroupObjectReader.Next`, call after call.
use moqsub.Common.{
  ℕ, zero, suc, ◌≡◌, refl, sym, ap, ◌∙◌, List, [], ◌∷◌, ◌++◌, Bool, true, false, Bool-cases, inl,
  inr, Option, some, ◌==◌, ==_iff, if◌then◌else◌, subst, append_assoc, length-take, length,
}
use moqsub.Common.Result.{Error, Result, ok, wrap, wrap-eq-ok, ◌>>=◌, >>=-eq-ok, ok-injective}
use moqsub.Reader.{make_bytes, Reader, read_full}
use moqsub.Reader.Laws.{read_full-eq_ok}
use moqsub.Varint.{read_varint}
use moqsub.Subgroup.{
  SubgroupObject, SubgroupObjectReader, next_object_id, read_extensions, read_content, next,
}
use moqsub.Subgroup.Layout.{Sent, object_wire, received, Follows, next-wire}

-- n calls of `Next`, which stop at the first that fails.
unfoldable pub next_n :
    ℕ → SubgroupObjectReader → Result (List SubgroupObject × SubgroupObjectReader)
next_n zero s = ok ([], s)
next_n (suc n) s = do (obj, s1) ← next s; (objs, s2) ← next_n n s1; ok (obj ∷ objs, s2)

-- The objects of a stream in a row, behind the ID `prev`.
unfoldable pub objects_wire : Bool → Option ℕ → List Sent → List ℕ
objects_wire ext prev [] = []
objects_wire ext prev (o ∷ os) = object_wire ext prev o ++ objects_wire ext (some o.id) os

abbrev pub AllFollow : Option ℕ → List Sent → Type 0
AllFollow prev [] = Unit {0}
AllFollow prev (o ∷ os) = Follows prev o × AllFollow (some o.id) os

abbrev pub all_received : Bool → Option ℕ → List Sent → List SubgroupObject
all_received ext prev [] = []
all_received ext prev (o ∷ os) = received ext prev o ∷ all_received ext (some o.id) os

abbrev pub last_id : Option ℕ → List Sent → Option ℕ
last_id prev [] = prev
last_id prev (o ∷ os) = last_id (some o.id) os

-- A publisher's objects, with IDs that increase and sizes that can be allocated, are read back one
-- call after the other: each as it was sent, with its own ID restored from the distances on the
-- wire.
pub next_n-objects_wire :
    (ext : Bool) (prev : Option ℕ) (os : List Sent) (rest : List ℕ) (fin : Error)
    → AllFollow prev os
    → next_n (length os) (record {
      r = record { bytes = objects_wire ext prev os ++ rest; fin = fin };
      has_extensions = ext;
      prev_object_id = prev;
    })
      ≡ ok (
        all_received ext prev os,
        record {
          r = record { bytes = rest; fin = fin };
          has_extensions = ext;
          prev_object_id = last_id prev os;
        },
      )
unfolding next_n objects_wire
next_n-objects_wire ext prev [] rest fin h = refl
next_n-objects_wire ext prev (o ∷ os) rest fin h = rw (
  append_assoc,
  next-wire ext prev o (objects_wire ext (some o.id) os ++ rest) fin h.0,
  next_n-objects_wire ext (some o.id) os rest fin h.1,
)

-- An object that `Next` returned from the state s, and the state it left.
pub record IsNext (s : SubgroupObjectReader) (obj : SubgroupObject) (s' : SubgroupObjectReader)
    : Type 0 where
  pub id : obj.object_id ≡ next_object_id s.prev_object_id obj.object_id_delta
  pub size : length obj.payload ≡ obj.payload_len
  pub status_object : obj.is_status_object ≡ (obj.payload_len == 0)
  pub normal : (if obj.is_status_object then 0 else obj.object_status) ≡ 0
  pub properties : (if s.has_extensions then [] else obj.properties_raw) ≡ []
  pub same_extensions : s'.has_extensions ≡ s.has_extensions
  pub prev : s'.prev_object_id ≡ some obj.object_id

read_extensions_properties :
    (ext : Bool) (r : Reader) (props : List ℕ) (r' : Reader)
    → read_extensions ext r ≡ ok (props, r')
    → (if ext then [] else props) ≡ []
unfolding read_extensions
read_extensions_properties true r props r' e = refl
read_extensions_properties false r props r' e = cc

read_content-eq_ok :
    (n : ℕ) (r : Reader) (status : ℕ) (payload : List ℕ) (is_status : Bool) (r' : Reader)
    → read_content n r ≡ ok (status, payload, is_status, r')
    → (length payload ≡ n) × (is_status ≡ (n == 0)) × ((if is_status then 0 else status) ≡ 0)
unfolding read_content
read_content-eq_ok n r status payload is_status r' e = elim (Bool-cases (n == 0)) [
  | inl z ↦
      let e1 = rw z at e in
      let ((v, r1), e2, e3) = >>=-eq-ok (wrap "object status: %w" [] (read_varint r)) _ e1 in
      let t : true ≡ is_status = cc in
      let l : [] ≡ payload = cc in
      (
        ap length (sym l) ∙ sym ((==_iff n 0).0 z),
        sym t ∙ sym z,
        ap (λ b. if b then 0 else status) (sym t),
      )
  | inr z ↦
      let e1 = rw z at e in
      let (_, _, e2) = >>=-eq-ok (make_bytes n) _ e1 in
      let ((bs, r1), e3, e4) = >>=-eq-ok (wrap "object payload: %w" [] (read_full n r)) _ e2 in
      let (le, eb, _) = read_full-eq_ok n r.bytes r.fin bs r1 (wrap-eq-ok _ _ _ e3) in
      let t : false ≡ is_status = cc in
      let l : bs ≡ payload = cc in
      let st : 0 ≡ status = cc in
      (
        ap length (sym l) ∙ ap length (sym eb) ∙ length-take n r.bytes le,
        sym t ∙ sym z,
        rw (← t, ← st) refl,
      )
]

-- Every object that `Next` returns has the ID that its delta gives behind the last one, a payload of
-- the announced size, and is a status object exactly when that size is 0; another object has status
-- Normal, and there are no properties where the header announces none. Its ID is the one kept for
-- the next call.
pub next-IsNext :
    (s : SubgroupObjectReader) (obj : SubgroupObject) (s' : SubgroupObjectReader)
    → next s ≡ ok (obj, s')
    → IsNext s obj s'
unfolding next
next-IsNext s obj s' e =
    let ((delta, r1), e1, e2) = >>=-eq-ok (read_varint s.r) _ e in
    let ((props, r2), e3, e4) = >>=-eq-ok (read_extensions s.has_extensions r1) _ e2 in
    let ((n, r3), e5, e6) = >>=-eq-ok (wrap "payload length: %w" [] (read_varint r2)) _ e4 in
    let ((status, payload, is_status, r4), e7, e8) = >>=-eq-ok (read_content n r3) _ e6 in
    let (size, kind, normal) = read_content-eq_ok n r3 status payload is_status r4 e7 in
    let properties = read_extensions_properties s.has_extensions r1 props r2 e3 in
    subst (λ q. IsNext s q.0 q.1) (ok-injective e8)
      (record {
        id = refl;
        size = size;
        status_object = kind;
        normal = normal;
        properties = properties;
        same_extensions = refl;
        prev = refl;
      })
