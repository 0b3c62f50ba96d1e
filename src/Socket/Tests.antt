-- ===== src/Socket/Tests.antt =====
-- A descriptor that is opened, moved, and closed with its last object.
use mudo_reprint.Base.{Reach, here, next, refl, none, some, true}
use mudo_reprint.Base.Int.{pos}
use mudo_reprint.Socket.{
  Sockets, no_socket, none_open, put, mark, construct, move_construct, destroy,
}
use mudo_reprint.Socket.Ownership.{Step, opens, moves_new, destroys, Inv, Reach-none_open-Inv}

abbrev opened : Sockets
opened = put 1 (some (pos 7)) (mark 7 true none_open)

abbrev moved : Sockets
moved = put 1 (some no_socket) (put 2 (some (pos 7)) opened)

abbrev left : Sockets
left = put 1 none moved

left-Reach : Reach Step none_open left
unfolding construct move_construct destroy
left-Reach =
    next (next (next here (opens 1 7 refl refl refl)) (moves_new 2 1 refl refl)) (destroys 1 refl)

Reach-none_open-Inv_example : Inv left
Reach-none_open-Inv_example = Reach-none_open-Inv left left-Reach
