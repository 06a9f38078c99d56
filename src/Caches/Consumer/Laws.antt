-- ===== src/Caches/Consumer/Laws.antt =====
-- Whose data a cache tells, and when it asks the server.
use subscription_manager.Base.{
  ◌≡◌, suc, String, true, Option, none, some, string_eq, arith, Bool-cases, inl, inr,
}
use subscription_manager.Base.Dict.{Dict, lookup}
use subscription_manager.Connection.Exceptions.{Call, raised, returned}
use subscription_manager.Caches.File.{File}
use subscription_manager.Caches.Consumer.{
  Kind, ConsumerCache, Round, read_cache_only, load, set_data, is_usable, cached_data, keep_answer,
  read_data,
}

module _ {J : Type 0} (kind : Kind J) where
  -- an answer is asked for once
  keep_answer-requests :
      (uuid : String) (r : Round J) (answer : Call J) (c : ConsumerCache J)
      → ((keep_answer kind uuid r answer c).1.requests ≡ suc c.requests)
        × ((keep_answer kind uuid r answer c).0 ≡ answer)
  unfolding keep_answer set_data
  keep_answer-requests uuid r (raised e) c = ground arith
  keep_answer-requests uuid r (returned v) c = ground arith

  load-requests : (c : ConsumerCache J) → (load c).requests ≡ c.requests
  unfolding load
  load-requests c = ground arith

  -- the data of an identity in the file
  abbrev pub stored_for : String → File (Dict String J) → Option J
  stored_for uuid file = elim (read_cache_only file) [ none ↦ none | some d ↦ lookup uuid d ]

  -- What `read_data` returns for an identity without asking the server is what the file, which is neither
  -- obsolete nor timed out, holds for that identity.
  pub read_data-own :
      (uuid : String) (r : Round J) (v : J) (c : ConsumerCache J)
      → kind.is_empty kind.default ≡ true
      → (read_data kind (some uuid) r c).0 ≡ returned v
      → (read_data kind (some uuid) r c).1.requests ≡ c.requests
      → (stored_for uuid c.file ≡ some v) × (is_usable kind r c ≡ true)
  unfolding read_data cached_data
  read_data-own uuid r v c empty told unasked =
      let t = load c in
      elim (Bool-cases (is_usable kind r c)) [
        | inl usable ↦ ground (
          arith,
          usable,
          empty,
          told,
          unasked,
          keep_answer-requests uuid r r.answer t,
          load-requests c,
        )
        | inr old ↦
            ground (arith, old, empty, told, unasked, keep_answer-requests uuid r r.answer c)
      ]
