-- ===== src/Tests/Containers.antt =====
-- The theorems of ContainerRunner at a session that is woken twice, crashes and is woken again.
use clawie.Prelude.{◌+◌, ◌≡◌, ◌≤◌, refl, ◌⊎◌, [], arith}
use clawie.Central.{Session}
use clawie.ContainerRunner.{Runner, joined, already_running, wake_container, spawn_process}
use clawie.ContainerRunner.Tracked.{processes, spawns}
use clawie.ContainerRunner.Alone.{Reach, start, later, wake, spawn, at_start, Reach-one}
use clawie.Tests.{host, session_of}

abbrev session : Session
session = session_of "s-helper" "ag-helper"

abbrev fresh : Runner
fresh = at_start (host [])

abbrev woken : Runner
woken = (wake_container session fresh).0

woken_twice : (wake_container session woken).1 ≡ joined
unfolding wake_container
woken_twice = refl

woken_waits : 1 ≤ spawns "s-helper" woken
unfolding wake_container
woken_waits = omega arith

abbrev spawned_once : Runner
spawned_once = spawn_process 5 session woken

spawned_Reach : Reach (host []) spawned_once
spawned_Reach = later (later start (wake session)) (spawn 5 session woken_waits)

-- One container is alive.
spawned_alive : processes "s-helper" spawned_once ≡ 1
unfolding wake_container spawn_process
spawned_alive = refl

Reach-one_example :
    (processes "s-helper" spawned_once + spawns "s-helper" spawned_once ≤ 1)
    × ((processes "s-helper" spawned_once ≡ 0)
        ⊎ (wake_container session spawned_once ≡ (spawned_once, already_running)))
Reach-one_example = Reach-one (host []) spawned_once session spawned_Reach
