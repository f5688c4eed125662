-- ===== src/Scheduler/Lightest.antt =====
-- internal/scheduler/scheduler.go, `chooseSlot`: the loads of the machines, their active runs over their
-- slots.
use vci.Base.{◌*◌, ◌≤◌, ◌<◌}
use vci.Config.Types.{Config}
use vci.Scheduler.Choose.{Snapshot}

-- The load of the first is at most that of the second.
abbrev pub NotHeavier : Snapshot → Snapshot → Type 0
NotHeavier a b = a.active * b.capacity ≤ b.active * a.capacity

abbrev HasSlots : Snapshot → Type 0
HasSlots s = 0 < s.capacity
