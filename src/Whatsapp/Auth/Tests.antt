-- ===== src/Whatsapp/Auth/Tests.antt =====
-- The credentials' store over a disk in memory.
use nestjs_starter.Prelude.{◌<◌, String, false, ◌≡◌, refl, none, some, [], ◌∷◌, arith}
use nestjs_starter.Storage.{private, done, StoredFile}
use nestjs_starter.Storage.Paths.{sanitize_key}
use nestjs_starter.Storage.Provider.{Provider, IsObjectStore}
use nestjs_starter.Storage.Samples.{no_signature}
use nestjs_starter.Storage.Local.{Location, walk, path_join, local_provider}
use nestjs_starter.Storage.Local as Local
use nestjs_starter.Storage.Local.Disk.{Disk, disk, put}
use nestjs_starter.Storage.Local.Refinement.{local_object_store}
use nestjs_starter.Whatsapp.Auth.{
  session_key, session_input, session_target, Store, initial, load, read_lands, save, flush,
  upload_lands, clear, delete_lands, exists,
}
use nestjs_starter.Whatsapp.Auth.Durability.{durable, IsDurable}
use nestjs_starter.Whatsapp.Auth.Runs.{
  loads, read_ends, saves, flushes, Reach, here, next, Reach-IsDurable, shut_down,
  shut_down-durable, clear-upload_lands,
}

abbrev P : Provider String
P = local_provider (disk String) ("srv" ∷ []) "" no_signature

abbrev place : Location
place = "session.json" ∷ "whatsapp" ∷ "private" ∷ "srv" ∷ []

store : IsObjectStore P
store = local_object_store (disk String) ("srv" ∷ []) "" no_signature

abbrev empty_disk : Disk String
empty_disk = λ p. none

abbrev file : String → Disk String → StoredFile
file payload d = record {
  key = session_key;
  visibility = private;
  size = Prim.Native.String.len payload;
  mime_type = "application/json";
}

abbrev after : String → Disk String → Disk String
after payload d = put String place (some payload) d

good :
    (payload : String) (d : Disk String)
    → Local.save (disk String) ("srv" ∷ []) (session_input payload) session_target d
      ≡ (done (file payload d), after payload d)
unfolding Local.save sanitize_key path_join walk
good payload d = refl

-- A pairing, and a second update while the first is written.
abbrev first_saved : Store P
first_saved = save P "one" (read_lands P (load P (initial P empty_disk)).1).1

abbrev in_flight : Store P
in_flight = flush P first_saved

abbrev two : Store P
two = save P "two" in_flight

one_read : 0 < (load P (initial P empty_disk)).1.reading
one_read = unfold load initial in omega arith

read_done : (read_lands P (load P (initial P empty_disk)).1).1.reading ≡ 0
unfolding load initial read_lands Local.read sanitize_key path_join walk
read_done = refl

none_read : in_flight.reading ≡ 0
unfolding flush save load initial read_lands Local.read sanitize_key path_join walk
none_read = refl

reached : Reach P store (initial P empty_disk) two
reached =
    next (next (next (next (next here loads) (read_ends one_read)) (saves "one" read_done)) flushes)
      (saves "two" none_read)

Reach-IsDurable_example : IsDurable P store two
Reach-IsDurable_example = Reach-IsDurable P store empty_disk reached

shut_down-durable_example :
    (durable P store (shut_down P store file after good two) ≡ some "two")
    × ((shut_down P store file after good two).pending ≡ none)
    × ((shut_down P store file after good two).flush_in_flight ≡ none)
shut_down-durable_example =
    shut_down-durable P store file after good two "two" (Reach-IsDurable P store empty_disk reached)
      cached_two not_waiting
  where
    not_waiting : two.flush_waits ≡ false
    not_waiting =
        unfold save flush load initial read_lands Local.read sanitize_key path_join walk in refl

    cached_two : two.cached ≡ some "two"
    cached_two = unfold save in refl

clear-upload_lands_example :
    (durable P store (upload_lands P (delete_lands P (clear P in_flight)).1) ≡ some "one")
    × (exists P (upload_lands P (delete_lands P (clear P in_flight)).1) ≡ done false)
clear-upload_lands_example =
    clear-upload_lands P store file after good in_flight "one" one_in_flight
  where
    one_in_flight : in_flight.flush_in_flight ≡ some "one"
    one_in_flight =
        unfold flush save load initial read_lands Local.read sanitize_key path_join walk in refl
