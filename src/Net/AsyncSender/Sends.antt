-- ===== src/Net/AsyncSender/Sends.antt =====
-- src/net_uring.cpp, `AsyncSender::continue_sending_file`: each piece is given to `send` once.
use uring_sync.Net.Socket.{Socket}
use uring_sync.Net.AsyncSender.{AsyncSender}
