-- ===== src/Log/Messages.antt =====
-- How much of a message `debug_message` of src/lib/log.c reads.
use pcmm_policy_server.Base.{
  ℕ, zero, suc, ◌+◌, ◌<◌, ◌≡◌, refl, Option, none, some, List, [], ◌∷◌, ◌++◌, arith, length, drop,
  get_elem?, get_elem?-none, Mem,
}
use pcmm_policy_server.Base.Fault.{◌>>=◌, bind_none}
use pcmm_policy_server.Pack.{unpack_u16, unpack_u16_it, unpack_u32_it}
use pcmm_policy_server.Log.{
  ObjectId, hnd, csi, sub, other, sum_bytes, object_values, debug_common_cops_object, debug_objects,
  debug_message,
}

sum_bytes-none : (m : Mem) (n i : ℕ) → 0 < n → length m < i + n → sum_bytes m i n ≡ none
unfolding sum_bytes
sum_bytes-none m zero i pos short = absurd (omega arith)
sum_bytes-none m (suc zero) i pos short = rw (get_elem?-none m i (omega arith)) refl
sum_bytes-none m (suc (suc n)) i pos short =
    bind_none (get_elem? m i) _
      λ b. rw (sum_bytes-none m (suc n) (i + 1) (omega arith) (omega arith)) refl

word-none :
    {A : Type 0} (m : Mem) (i : ℕ) (k : ℕ × ℕ → Option A)
    → ((v : ℕ) → k (v, i + 2) ≡ none)
    → (unpack_u16_it m i >>= k) ≡ none
unfolding unpack_u16_it
word-none m i k h = after (unpack_u16 (drop i m))
  where
    after : (o : Option ℕ) → ((o >>= λ v. some (v, i + 2)) >>= k) ≡ none
    after none = refl
    after (some v) = h v

module _ (m handle : Mem) (short : length m < 72) where
  subscriber-none : debug_common_cops_object m sub 52 handle ≡ none
  unfolding debug_common_cops_object object_values
  subscriber-none = word-none m 52 _ λ len. bind_none (get_elem? m 54) _ λ scn.
      bind_none (get_elem? m 55) _
        λ sct. rw (sum_bytes-none m 16 56 (omega arith) (omega arith)) refl

  debug_objects-none :
      (front : List (ObjectId × ℕ)) → debug_objects m (front ++ ((sub, 52) ∷ [])) handle ≡ none
  unfolding debug_objects
  debug_objects-none [] = rw subscriber-none refl
  debug_objects-none ((id, i) ∷ front) =
      bind_none (debug_common_cops_object m id i handle) _
        λ printed. rw (debug_objects-none front) refl

  -- A message of fewer than 72 bytes, such as one for an IPv4 subscriber without a request, is read
  -- past its end, because the subscriber's object is taken for one of IPv6.
  pub debug_message_short : debug_message m handle ≡ none
  unfolding debug_message
  debug_message_short = bind_none (get_elem? m 0) _ λ vers. bind_none (get_elem? m 1) _ λ opcd.
      word-none m 2 _
        λ clt. bind_none (unpack_u32_it m 4) _ λ len. rw (debug_objects-none front) refl
    where
      front : List (ObjectId × ℕ)
      front = (hnd, 8) ∷ (other, 16) ∷ (other, 24) ∷ (csi, 32) ∷ (other, 36) ∷ (other, 44) ∷ []
