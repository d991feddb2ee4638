-- ===== src/Tests/Storage.antt =====
-- The memory of a wait set at concrete inputs: the world counts constructors, and the second
-- destructor of a sequence throws.
use rmw_opendds.Prelude.{
  ℕ, ◌+◌, ◌≡◌, inr, refl, true, some, [], ◌∷◌, ◌==◌, not, ok, undefined, if◌then◌else◌,
}
use rmw_opendds.Identifier.{opendds_identifier, check_impl_id}
use rmw_opendds.Ret.{RmwRet}
use rmw_opendds.Heap.{Heap, allocate}
use rmw_opendds.WaitSets.Storage.{WaitSetAt, Objects, built, create_wait_set, destroy_wait_set}
use rmw_opendds.WaitSets.Storage.Lifecycle.{
  is_quiet, create_wait_set_out_of_memory, destroy_wait_set-create_wait_set,
}

abbrev objects : Objects ℕ
objects = record {
  construct_wait_set = λ w. (true, w + 1);
  construct_sequence = λ n w. (true, w + n);
  destruct_wait_set = λ w. (true, w);
  destruct_sequence = λ w. (not (w == 22), w + 1);
}

abbrev heap : Heap ℕ
heap = record { next = 5; live = 2 ∷ []; world = 0 }

-- There is no memory for the attached conditions.
out_of_memory_example :
    create_wait_set objects (λ n. not (n == 9)) opendds_identifier 10 heap ≡ undefined
out_of_memory_example =
    create_wait_set_out_of_memory objects (λ n. not (n == 9)) opendds_identifier 10 heap refl refl
      (inr (inr refl))

abbrev wait_set : WaitSetAt
wait_set = record {
  address = 5;
  implementation_identifier = opendds_identifier;
  info = some (record {
    address = 6;
    wait_set = built 7;
    active_conditions = built 8;
    attached_conditions = built 9;
  });
}

abbrev left : Heap ℕ
left = record { next = 10; live = 9 ∷ 8 ∷ 7 ∷ 6 ∷ 5 ∷ 2 ∷ []; world = 21 }

made : create_wait_set objects (λ n. true) opendds_identifier 10 heap ≡ ok (some wait_set, left)
unfolding create_wait_set allocate
made = refl

end_example :
    (final : Heap ℕ) × (destroy_wait_set objects check_impl_id (some wait_set) left
      ≡ ok (if is_quiet objects 21 then RmwRet.ok else RmwRet.error, final))
    × (final.live ≡ 2 ∷ [])
unfolding check_impl_id
end_example =
    destroy_wait_set-create_wait_set objects (λ n. true) opendds_identifier 10 heap check_impl_id
      wait_set left refl made
