-- ===== src/Node/Machine/Alone.antt =====
-- A handler that no other comes between: its steps come to the whole of it.
use triptorrent.Base.{[]}
use triptorrent.Base.Bytes.{Bytes}
use triptorrent.Node.Runtime.{Runtime}
use triptorrent.Node.Tasks.{Node}

abbrev pub idle_node : Runtime → Node
idle_node r = record { runtime = r; tasks = [] }
