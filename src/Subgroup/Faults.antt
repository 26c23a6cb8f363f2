-- ===== src/Subgroup/Faults.antt =====
-- `SubgroupObjectReader.Next` on streams that no correct publisher sends.
use moqsub.Common.{
  ℕ, ◌+◌, ◌-◌, ◌^◌, ◌<◌, ◌≡◌, refl, List, [], ◌++◌, true, false, Option, some, ◌==◌, arith,
  append-nil, subst, IsU64, lt→ltb,
}
use moqsub.Common.Result.{Error, eof, wrapped, is_eof, ok, err, panic}
use moqsub.Varint.{append_varint, read_varint}
use moqsub.Varint.RoundTrip.{read_varint-append_varint, read_varint-nil}
use moqsub.Reader.{max_alloc}
use moqsub.Subgroup.{
  SubgroupObject, SubgroupObjectReader, next_object_id, read_extensions, read_content, next,
}
use moqsub.Subgroup.Objects.{next-IsNext}

-- An object that `Next` returns behind another has a greater ID, where the ID before, the delta and 1
-- add up to less than 2^64.
pub next_increases :
    (s : SubgroupObjectReader) (prev : ℕ) (obj : SubgroupObject) (s' : SubgroupObjectReader)
    → s.prev_object_id ≡ some prev
    → next s ≡ ok (obj, s')
    → prev + obj.object_id_delta + 1 < 2 ^ 64
    → prev < obj.object_id
unfolding next_object_id
next_increases s prev obj s' p e h =
    let i = next-IsNext s obj s' e in let q = rw p at i.id in omega arith

-- An object that `Next` returns behind another, with a delta of 2^64 - 1, has the ID of the object
-- before: the sum wraps around.
pub next_repeats_id :
    (s : SubgroupObjectReader) (prev : ℕ) (obj : SubgroupObject) (s' : SubgroupObjectReader)
    → IsU64 prev
    → s.prev_object_id ≡ some prev
    → next s ≡ ok (obj, s')
    → obj.object_id_delta ≡ 2 ^ 64 - 1
    → obj.object_id ≡ prev
unfolding next_object_id
next_repeats_id s prev obj s' u p e h =
    let i = next-IsNext s obj s' e in let q = rw (p, h) at i.id in omega arith

module _ (delta n : ℕ) (rest : List ℕ) (fin : Error) (prev : Option ℕ) where
  -- On a stream without extension headers, an object that announces a payload above the largest
  -- allocation makes `Next` panic, however few bytes follow.
  pub next_panics :
      IsU64 delta
      → IsU64 n
      → max_alloc < n
      → next (record {
        r = record { bytes = append_varint [] delta ++ (append_varint [] n ++ rest); fin = fin };
        has_extensions = false;
        prev_object_id = prev;
      })
        ≡ panic
  unfolding next read_extensions read_content
  next_panics hd hn big =
      rw
        (
          read_varint-append_varint delta (append_varint [] n ++ rest) fin hd,
          read_varint-append_varint n rest fin hn,
          positive,
          lt→ltb max_alloc n big,
        )
        refl
    where
      positive : (n == 0) ≡ false
      positive = ground arith

-- On a stream without extension headers that ends behind an object's delta, `Next` returns an
-- error that wraps the end of the file, which is the end of the file for `errors.Is`.
pub next_eof_inside :
    (delta : ℕ) (prev : Option ℕ)
    → IsU64 delta
    → (next (record {
      r = record { bytes = append_varint [] delta; fin = eof };
      has_extensions = false;
      prev_object_id = prev;
    })
        ≡ err (wrapped "payload length: %w" [] eof))
      × (is_eof (wrapped "payload length: %w" [] eof) ≡ true)
unfolding next read_extensions is_eof
next_eof_inside delta prev h = (rw (whole, read_varint-nil) refl, refl)
  where
    whole :
        read_varint (record { bytes = append_varint [] delta; fin = eof })
        ≡ ok (delta, record { bytes = []; fin = eof })
    whole =
        subst
          (λ bs.
            read_varint (record { bytes = bs; fin = eof })
            ≡ ok (delta, record { bytes = []; fin = eof }))
          (append-nil (append_varint [] delta)) (read_varint-append_varint delta [] eof h)
