-- ===== src/Tests/Fresh.antt =====
-- A revocation and a grant through the write handler, and the check that follows.
use zanzo.Base.{none, ◌≡◌, refl, some, [], ◌∷◌, Str, codes, eq_str, any, get, put, filter}
use zanzo.Schema.Types.{lookup}
use zanzo.Storage.Types.{hash, object_string, subject_string, eq_subject, eq_object, is_userset}
use zanzo.Storage.Memory.{
  key, read, add_tuples, add_tuple, is_duplicate, rows_at, offsets, remove_tuples, append_row,
  append_offset, remove_tuple, mark_offsets, mark_row, is_live_for, is_visible, write,
}
use zanzo.Storage.Parse.{parse_object, parse_subject, index}
use zanzo.Check.Body.Caches.{IsCorrect-new}
use zanzo.Check.Agreement.Request.{IsAnswer}
use zanzo.Service.{engine}
use zanzo.Api.Token.{format_token, digits}
use zanzo.Api.Handlers.{
  CheckCall, WriteCall, Relationship, written, write_call, to_tuples, handle_write,
}
use zanzo.Api.Fresh.Related.{IsDirect, AreConcrete}
use zanzo.Api.Fresh.{Asks, AnswersFresh, IsPlainBody, handle_check-handle_write}
use zanzo.Tests.Data.{sample, sample_schema, user_u, group_a, plain, member}
use zanzo.Tests.Storage.{sample-IsStored, sample_room}
use zanzo.Tests.Check.{quiet, empty_cache}

abbrev membership : Str → Relationship
membership user = record { object = codes "group:a"; relation = codes "member"; subject = user }

abbrev revoke : WriteCall
revoke = record {
  add = membership (codes "user:v") ∷ [];
  remove = membership (codes "user:u") ∷ [];
}

abbrev member_call : CheckCall
member_call = record {
  object = codes "group:a";
  relation = codes "member";
  subject = codes "user:u";
  consistency = codes "at_least_as_fresh";
  token = codes "zk-2";
}

revoked : (handle_write sample (some revoke)).0 ≡ written (codes "zk-2")
unfolding handle_write write_call to_tuples parse_object parse_subject index eq_str write add_tuples
    add_tuple is_duplicate any rows_at offsets get put remove_tuples remove_tuple mark_offsets
    mark_row is_live_for eq_subject eq_object append_row append_offset key object_string
    subject_string is_userset format_token digits
revoked = refl

member_call-Asks : Asks member_call (codes "zk-2") group_a (plain user_u)
unfolding parse_object parse_subject index eq_str
member_call-Asks = record {
  object = refl;
  subject = refl;
  relation = λ h. cc h;
  mode = refl;
  token_of_write = refl;
}

member-IsDirect : IsDirect sample_schema group_a member
unfolding lookup get eq_str
member-IsDirect = (_, refl, refl)

revoked-AreConcrete :
    let m' = (handle_write sample (some revoke)).1 in AreConcrete (read m' m'.head group_a member)
unfolding handle_write write_call to_tuples parse_object parse_subject index eq_str write add_tuples
    add_tuple is_duplicate any rows_at offsets get put remove_tuples remove_tuple mark_offsets
    mark_row is_live_for eq_subject eq_object append_row append_offset key object_string
    subject_string is_userset read filter is_visible
revoked-AreConcrete = (refl, tt)

revoke-IsPlainBody : IsPlainBody (some revoke)
unfolding index
revoke-IsPlainBody = ((refl, tt), (refl, tt))

member_plain : index member hash ≡ none
unfolding index
member_plain = refl

handle_check-handle_write_example :
    AnswersFresh sample_schema 0 sample revoke quiet empty_cache member_call group_a
      (plain user_u)
      (handle_write sample (some revoke)).1
handle_check-handle_write_example =
    handle_check-handle_write sample_schema 0 sample (some revoke) (codes "zk-2") sample-IsStored
      sample_room revoke-IsPlainBody revoked quiet empty_cache member_call group_a (plain user_u)
      member_call-Asks member_plain member-IsDirect revoked-AreConcrete (λ i. refl)
      (IsCorrect-new (IsAnswer (engine sample_schema 0 (handle_write sample (some revoke)).1)))
