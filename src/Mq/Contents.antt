-- ===== src/Mq/Contents.antt =====
-- The messages that a queue holds, oldest first.
use game_server.Common.{List}
use game_server.Common.Ring.{window}
use game_server.Mq.{Message, MessageQueue, mq_length}

unfoldable pub contents : MessageQueue → List Message
unfolding mq_length
contents q = window q.queue q.cap q.head (mq_length q)
