-- ===== src/Publisher/Laws.antt =====
-- What publication asks of a remote, for the operations that it publishes: an operation holds at a
-- state of the remote or it does not, reading changes nothing, an answer of `unchanged` means that
-- the operation holds, an application makes it hold, and none of the applications undoes another.
use duto_ai.Prelude.{Bool, true, String, List, ◌≡◌, ok}
use duto_ai.Publisher.{Operation, RemoteState, Remote, is_unchanged}
use mathlib.Core.List.{Memᴰ}

pub record Lawful {R : Type 0} (remote : Remote R) (operations : List Operation) : Type 0 where
  pub holds : Operation → R → Bool
  pub reads :
      (operation asked : Operation) (r : R)
      → holds operation (remote.preflight asked r).1 ≡ holds operation r
  pub answers :
      (operation : Operation) (r : R) (state : RemoteState)
      → (remote.preflight operation r).0 ≡ ok state
      → is_unchanged state ≡ holds operation r
  pub applied :
      (operation : Operation) (r : R) (resource : String)
      → Memᴰ operation operations
      → (remote.apply operation r).0 ≡ ok resource
      → holds operation (remote.apply operation r).1 ≡ true
  pub kept :
      (operation applied_after : Operation) (r : R)
      → Memᴰ operation operations
      → Memᴰ applied_after operations
      → holds operation r ≡ true
      → holds operation (remote.apply applied_after r).1 ≡ true
